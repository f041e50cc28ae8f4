-- ===== src/Inode/Map.antt =====
-- A new block in a slot of an inode (`bmap` of fs.c), with the other slots as they were.
use ele.Fs.{Fs, balloc, bblock, logged}
use ele.Inode.{Inode, Fs, iblock, ipb, ndirect, nindirect}
use ele.Base.{
  ℕ, ◌+◌, ◌/◌, ◌<◌, ◌≤◌, ◌≡◌, refl, sym, ap, ap₂, ◌∙◌, ◌≢◌, inl, inr, true, false, arith, ◌==◌,
  if◌then◌else◌, Bool-cases, done, ==_iff, load_word, store, ◌-◌, ◌*◌, load_word-congr, store_word,
  store_self, load_word-store_word, load_word-store_word_ne, subst, ◌⊎◌,
}
use ele.Fs.Bitmap.{used}
use ele.Fs.Free.{free, free-Allocated, free-congr}
use ele.Fs.Blocks.{Allocated, balloc-Allocated, still_used, unused-apart}
use ele.Inode.Slots.{
  nslot, indirect, slot, IsContent, IsSound, IsPlaced-store, IsContent-mono, IsReserved-mono,
}

-- Slot `k` has the block `a` now, and all else is as it was, the bitmap and the indirect block apart.
pub record Grown (k : ℕ) (ip : Inode) (s : Fs) (a : ℕ) (ip' : Inode) (t : Fs) : Type 0 where
  pub sound : IsSound ip' t
  pub slots : (j : ℕ) → j < nslot → slot ip' t j ≡ (if k == j then a else slot ip s j)
  pub nonzero : a ≢ 0
  pub found : slot ip s k ≢ 0 → slot ip s k ≡ a
  pub chosen : (slot ip s k ≡ a) ⊎ (used s a ≡ false)
  pub fields : ip' ≡ record ip { addrs = ip'.addrs }
  pub sizes : t.size ≡ s.size
  pub starts : t.bmapstart ≡ s.bmapstart
  pub inodes : t.inodestart ≡ s.inodestart
  pub costs : free s ≤ free t + 1
  pub still : (i : ℕ) → i < s.size → used s i ≡ true → used t i ≡ true
  pub kept :
      (m : ℕ)
      → m < s.size
      → used s m ≡ true
      → ((i : ℕ) → i < s.size → (m == bblock i s) ≡ false)
      → (slot ip s indirect == m) ≡ false
      → t.block m ≡ s.block m

-- A slot that has a block.
pub found-Grown :
    (k : ℕ) (ip : Inode) (s : Fs) → IsSound ip s → slot ip s k ≢ 0 → Grown k ip s (slot ip s k) ip s
found-Grown k ip s v ne = record {
  sound = v;
  slots = λ j l. elim (Bool-cases (k == j)) [
    | inl e ↦ rw e (ap (slot ip s) (sym ((==_iff k j).0 e)))
    | inr e ↦ rw e refl
  ];
  nonzero = ne;
  found = λ _. refl;
  chosen = inl refl;
  fields = refl;
  sizes = refl;
  starts = refl;
  inodes = refl;
  costs = omega arith;
  still = λ i l h. h;
  kept = λ m l h b n. refl;
}

module _ (ip : Inode) (s : Fs) (v : IsSound ip s) (n : ℕ) (t : Fs)
    (e : balloc s ≡ done (n, t)) where
  pub fresh : (n < s.size) × (used s n ≡ false) × Allocated s n t
  fresh = balloc-Allocated s n t v.reserved e

  fresh_ne : (m : ℕ) → used s m ≡ true → (n == m) ≡ false
  fresh_ne m h = elim (Bool-cases (n == m)) [
    | inr q ↦ q
    | inl q ↦ absurd (cc ((==_iff n m).0 q, h, fresh.1))
  ]

  -- Blocks that are marked and none of the bitmap's.
  balloc-kept :
      (m : ℕ)
      → used s m ≡ true
      → ((i : ℕ) → i < s.size → (m == bblock i s) ≡ false)
      → t.block m ≡ s.block m
  balloc-kept m h b =
      let apart = b n fresh.0 in fresh.2.others m (fresh_ne m h) (ground (arith, apart))

  fresh-IsContent : IsContent t (iblock ip.inum s) n
  fresh-IsContent =
      let (l, un, a) = fresh in
      record {
        within = rw a.sizes l;
        marked = a.bits n l ∙ ground arith;
        not_inodes = fresh_ne _ v.inodes_used.1;
        not_bitmap =
            λ i m. rw a.starts (unused-apart s n v.reserved un i (omega (arith, m, a.sizes)));
      }

  -- What `balloc` gives to a slot that is empty, where the rest of the slots stay.
  pub fresh-Grown :
      (k : ℕ) (ip' : Inode) (u : Fs)
      → k < nslot
      → slot ip s k ≡ 0
      → ip' ≡ record ip { addrs = ip'.addrs }
      → (u.size ≡ t.size) × (u.bmapstart ≡ t.bmapstart) × (u.inodestart ≡ t.inodestart)
      → ((i : ℕ) → i < s.size → used u i ≡ used t i)
      → ((j : ℕ) → j < nslot → slot ip' u j ≡ (if k == j then n else slot ip s j))
      → ((m : ℕ) → (slot ip s indirect == m) ≡ false → u.block m ≡ t.block m)
      → Grown k ip s n ip' u
  fresh-Grown k ip' u l empty fields (z, b, o) bits slots blocks =
      let (lower, un, a) = fresh in
      let size : u.size ≡ s.size = z ∙ a.sizes in
      let bmap_start : u.bmapstart ≡ s.bmapstart = b ∙ a.starts in
      let inode_start : u.inodestart ≡ s.inodestart = o ∙ a.inodes in
      let still : (i : ℕ) → i < s.size → used s i ≡ true → used u i ≡ true =
        λ i m h. bits i m ∙ still_used a i m h in
      let same_block : iblock ip'.inum u ≡ iblock ip.inum s =
        ap₂ (λ x y. x / ipb + y) (ap (λ x. x.inum) fields) inode_start in
      record {
        sound = record {
          reserved = IsReserved-mono s u size bmap_start still v.reserved;
          boot_used = (omega (arith, v.boot_used.0, size), still 0 v.boot_used.0 v.boot_used.1);
          inodes_used =
              rw (same_block, size) (v.inodes_used.0, still _ v.inodes_used.0 v.inodes_used.1);
          inodes_apart =
              λ i m. rw (same_block, bmap_start) (v.inodes_apart i (omega (arith, m, size)));
          small = rw size v.small;
          placed = rw same_block (
              IsPlaced-store s u (iblock ip.inum s) (slot ip s) (slot ip' u) k n size bmap_start
                still un
                (IsContent-mono t u (iblock ip.inum s) n z b
                  (λ i m h. bits i (omega (arith, m, a.sizes)) ∙ h) fresh-IsContent)
                v.placed l slots);
        };
        slots = slots;
        nonzero = λ h. absurd (ground (arith, fresh_ne 0 v.boot_used.1, h));
        found = λ h. absurd (h empty);
        chosen = inr un;
        fields = fields;
        sizes = size;
        starts = bmap_start;
        inodes = inode_start;
        costs =
            let taken = free-Allocated s n t lower un a in
            let same = free-congr t u z (λ i m. bits i (omega (arith, m, a.sizes))) in
            omega (arith, taken, same);
        still = still;
        kept = λ m lm h c d. blocks m d ∙ balloc-kept m h c;
      }

  -- The words of a block that was zeroed.
  zeroed-load_word : (i : ℕ) → i < nindirect → load_word (t.block n) (4 * i) ≡ 0
  unfolding load_word
  zeroed-load_word i l =
      load_word-congr (t.block n) (λ x. 0) (4 * i)
        (λ x low high. fresh.2.zeroed x (omega (arith, high, l)))
      ∙ omega arith

  -- The entries of the indirect block are as they were.
  entries_kept :
      (i : ℕ)
      → ip.addrs ndirect ≢ 0
      → load_word (t.block (ip.addrs ndirect)) (4 * i)
        ≡ load_word (s.block (ip.addrs ndirect)) (4 * i)
  entries_kept i ne =
      let c = v.placed.content indirect (omega arith) ne in
      ap (λ b. load_word b (4 * i)) (balloc-kept (ip.addrs ndirect) c.marked c.not_bitmap)

  pub direct-slots :
      (k : ℕ)
      → k < ndirect
      → (j : ℕ) → j < nslot
      → slot (record ip { addrs = store ip.addrs k n }) t j ≡ (if k == j then n else slot ip s j)
  unfolding store
  direct-slots k l j m = elim (Bool-cases (ip.addrs ndirect == 0)) [
    | inl z ↦ ground (arith, z, l, m)
    | inr z ↦ ground (arith, z, l, m, entries_kept (j - ndirect) (λ q. cc (rw q at z)))
  ]

  pub indirect-slots :
      ip.addrs ndirect ≡ 0
      → (j : ℕ) → j < nslot
      → slot (record ip { addrs = store ip.addrs ndirect n }) t j
        ≡ (if indirect == j then n else slot ip s j)
  unfolding store
  indirect-slots z j m =
      ground (arith, z, m, zeroed-load_word (j - ndirect), fresh_ne 0 v.boot_used.1)

  abbrev pub entered : (k : ℕ) → Fs
  entered k = logged (ip.addrs ndirect) (store_word (t.block (ip.addrs ndirect)) (4 * k) n) t

  pub entered-slots :
      (k : ℕ)
      → k < nindirect
      → ip.addrs ndirect ≢ 0
      → (j : ℕ) → j < nslot
      → slot ip (entered k) j ≡ (if ndirect + k == j then n else slot ip s j)
  unfolding logged
  entered-slots k l ne j m =
      let b = ip.addrs ndirect in
      let there : (entered k).block b ≡ store_word (t.block b) (4 * k) n = store_self t.block b _ in
      let word : ℕ → ℕ = λ i. load_word ((entered k).block b) (4 * i) in
      let new : word k ≡ n =
        ap (λ x. load_word x (4 * k)) there
        ∙ load_word-store_word (t.block b) (4 * k) n (omega (arith, fresh.0, v.small)) in
      let old : (i : ℕ) → (k == i) ≡ false → word i ≡ load_word (s.block b) (4 * i) = λ i e.
        ap (λ x. load_word x (4 * i)) there
        ∙ load_word-store_word_ne (t.block b) (4 * k) n (4 * i) (ground (arith, e))
        ∙ entries_kept i ne in
      elim (Bool-cases (ndirect + k == j)) [
        | inl e ↦
            let same : k ≡ j - ndirect = ground (arith, e) in
            ground (arith, e, ne, l, subst (λ i. word i ≡ n) same new)
        | inr e ↦ ground (arith, e, ne, l, old (j - ndirect))
      ]
