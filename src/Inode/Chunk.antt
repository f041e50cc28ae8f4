-- ===== src/Inode/Chunk.antt =====
-- One round of `writei` (fs.c): the bytes in the block of `off`.
use ele.Inode.{Inode, max_size, patched}
use ele.Strings.{Bytes}
use ele.Inode.Wrote.{Wrote}
use ele.Base.{
  ℕ, ◌+◌, ◌-◌, ◌/◌, ◌%◌, ◌≤◌, ◌<◌, ◌≡◌, refl, sym, ap, ◌∙◌, subst, ◌≢◌, ◌⊎◌, inl, inr, true, false,
  ◌&&◌, arith, ltb, leb, ◌==◌, Bool-cases, store_self, ==_iff, store_ne,
}
use ele.Fs.{logged, Fs, bsize, bblock, has_bit, bpb}
use ele.Fs.Free.{free, free-congr}
use ele.Inode.Slots.{slot, indirect, nslot, IsSound}
use ele.Inode.Bmap.{Mapped}
use ele.Inode.Content.{byte, logged-IsSound, logged_slots, slots_apart}

module _ (off m : ℕ) (src : Bytes) (tot : ℕ) (value : ℕ → ℕ) (ip : Inode) (s : Fs) (b : ℕ)
    (ip' : Inode) (t : Fs) (v : IsSound ip s) (top : off + m ≤ max_size)
    (fits : off % bsize + m ≤ bsize) (positive : 0 < m)
    (g : Mapped (off / bsize) ip s b ip' t) where
  within : off / bsize < indirect
  within = omega (arith, top, positive)

  mine : slot ip' t (off / bsize) ≢ 0
  mine z = g.nonzero (sym g.here ∙ z)

  abbrev bytes : Bytes
  bytes = patched (t.block b) (off % bsize) m src tot

  abbrev after : Fs
  after = logged b bytes t

  indirect_apart : slot ip' t indirect ≢ 0 → (b == slot ip' t indirect) ≡ false
  indirect_apart ne =
      subst (λ x. (x == slot ip' t indirect) ≡ false) g.here
        (slots_apart ip' t g.sound (off / bsize) indirect (omega (arith, within)) (omega arith)
          (ground (arith, within)) mine)

  bitmap_apart : (i : ℕ) → i < t.size → (b == bblock i t) ≡ false
  bitmap_apart i l =
      subst (λ x. (x == bblock i t) ≡ false) g.here
        ((g.sound.placed.content (off / bsize) (omega (arith, within)) mine).not_bitmap i l)

  slots_after : (j : ℕ) → j < nslot → slot ip' after j ≡ slot ip' t j
  slots_after = logged_slots ip' t g.sound b bytes indirect_apart

  slots_kept : (j : ℕ) → j < indirect → slot ip s j ≢ 0 → slot ip' after j ≡ slot ip s j
  slots_kept j l ne = slots_after j (omega (arith, l)) ∙ elim (Bool-cases (off / bsize == j)) [
    | inr e ↦ g.same j l e
    | inl e ↦
        let q = (==_iff _ _).0 e in
        subst (λ k. slot ip s k ≢ 0 → slot ip' t k ≡ slot ip s k) q (λ n. g.here ∙ sym (g.found n))
          ne
  ]

  -- The block itself.
  block_here : (o : ℕ) → o / bsize ≡ off / bsize → byte ip' after o ≡ bytes (o % bsize)
  unfolding logged
  block_here o e =
      let there : slot ip' after (o / bsize) ≡ b =
        slots_after (o / bsize) (omega (arith, e, within)) ∙ ap (slot ip' t) e ∙ g.here in
      ap (λ k. after.block k (o % bsize)) there
      ∙ ap (λ f. f (o % bsize)) (store_self t.block b bytes)

  -- Another block of the content that was there before.
  block_kept :
      (j x : ℕ)
      → j < indirect
      → slot ip s j ≢ 0
      → (b == slot ip s j) ≡ false
      → after.block (slot ip' after j) x ≡ s.block (slot ip s j) x
  unfolding logged
  block_kept j x l ne apart =
      let c = v.placed.content j (omega (arith, l)) ne in
      let far : (slot ip s indirect == slot ip s j) ≡ false = ground (
        arith,
        slots_apart ip s v j indirect (omega (arith, l)) (omega arith) (ground (arith, l)) ne,
      ) in
      ap (λ k. after.block k x) (slots_kept j l ne)
      ∙ ap (λ f. f x) (store_ne t.block b bytes (slot ip s j) apart)
      ∙ ap (λ f. f x) (g.kept (slot ip s j) c.within c.marked c.not_bitmap far)

  outside :
      (o : ℕ)
      → o / bsize ≡ off / bsize
      → (o < off) ⊎ (off + m ≤ o)
      → bytes (o % bsize) ≡ t.block b (o % bsize)
  outside o e out =
      let no : (leb (off % bsize) (o % bsize) && ltb (o % bsize) (off % bsize + m)) ≡ false =
        ground (arith, out, e) in
      rw no refl

  inside : (o : ℕ) → off ≤ o → o < off + m → bytes (o % bsize) ≡ src (tot + (o - off))
  inside o l h =
      let yes' : (leb (off % bsize) (o % bsize) && ltb (o % bsize) (off % bsize + m)) ≡ true =
        ground (arith, l, h, fits) in
      rw yes' (ap src (omega (arith, l, h, fits)))

  new_apart :
      (j : ℕ)
      → j < indirect
      → (off / bsize == j) ≡ false
      → slot ip s j ≢ 0
      → (b == slot ip s j) ≡ false
  new_apart j l e ne =
      let same = g.same j l e in
      subst (λ x. (x == slot ip s j) ≡ false) g.here
        (subst (λ x. (slot ip' t (off / bsize) == x) ≡ false) same
          (slots_apart ip' t g.sound (off / bsize) j (omega (arith, within)) (omega (arith, l)) e
            mine))

  others_kept :
      (o : ℕ)
      → o < max_size
      → (o < off) ⊎ (off + m ≤ o)
      → slot ip s (o / bsize) ≢ 0
      → byte ip' after o ≡ byte ip s o
  others_kept o l out ne = elim (Bool-cases (o / bsize == off / bsize)) [
    | inl e ↦
        let q : o / bsize ≡ off / bsize = (==_iff _ _).0 e in
        let old : slot ip s (off / bsize) ≡ b = g.found (subst (λ k. slot ip s k ≢ 0) q ne) in
        let c =
          v.placed.content (off / bsize) (omega (arith, within)) (λ z. g.nonzero (sym old ∙ z)) in
        let far : (slot ip s indirect == slot ip s (off / bsize)) ≡ false = ground (
          arith,
          slots_apart ip s v (off / bsize) indirect (omega (arith, within)) (omega arith)
              (ground (arith, within)) (λ z. g.nonzero (sym old ∙ z)),
        ) in
        block_here o q
        ∙ outside o q out
        ∙ ap (λ k. t.block k (o % bsize)) (sym old)
        ∙ ap (λ f. f (o % bsize)) (g.kept _ c.within c.marked c.not_bitmap far)
        ∙ ap (λ k. s.block (slot ip s k) (o % bsize)) (sym q)
    | inr e ↦
        block_kept (o / bsize) (o % bsize) (omega (arith, l)) ne
          (new_apart (o / bsize) (omega (arith, l)) (ground (arith, e)) ne)
  ]

  -- The bitmap is as `bmap` left it.
  pub chunk_costs : free s ≤ free after + 2
  unfolding logged
  chunk_costs =
      let same = free-congr t after refl (λ i l.
        ap (λ y. has_bit (i % bpb % 8) (y (i % bpb / 8)))
          (store_ne t.block b bytes (bblock i t) (bitmap_apart i l))) in
      omega (arith, g.costs, same)

  -- The block that `bmap` returned is changed.
  pub chunk-Wrote :
      ((o : ℕ) → off ≤ o → o < off + m → value o ≡ src (tot + (o - off)))
      → Wrote off (off + m) value ip s ip' after
  unfolding logged
  chunk-Wrote same = record {
    sound = logged-IsSound ip' t g.sound b bytes indirect_apart bitmap_apart;
    fields = g.fields;
    sizes = g.sizes;
    starts = g.starts;
    inodes = g.inodes;
    slots = slots_kept;
    mapped = λ o l h z.
        let e : o / bsize ≡ off / bsize = omega (arith, l, h, fits) in
        mine (
          sym (slots_after (off / bsize) (omega (arith, within)))
          ∙ ap (slot ip' after) (sym e)
          ∙ z);
    written = λ o l h.
        let e : o / bsize ≡ off / bsize = omega (arith, l, h, fits) in
        block_here o e ∙ inside o l h ∙ sym (same o l h);
    others = others_kept;
  }
