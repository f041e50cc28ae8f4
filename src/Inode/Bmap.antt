-- ===== src/Inode/Bmap.antt =====
-- `bmap` (fs.c) finds the block of a slot, or puts a new one there and leaves the others.
use ele.Inode.{Inode, ndirect, nindirect, bmap}
use ele.Fs.Bitmap.{used}
use ele.Fs.Free.{free}
use ele.Base.{
  ℕ, ◌+◌, ◌≤◌, ◌<◌, ◌≡◌, refl, sym, ap, ◌∙◌, ◌≢◌, ◌⊎◌, inl, inr, arith, ◌==◌, Bool-cases, done,
  panic, ==_iff, ◌-◌, false, true, ltb, subst,
}
use ele.Fs.{Fs, bblock}
use ele.Inode.Slots.{slot, indirect, IsSound}
use ele.Inode.Map.{Grown}
use ele.Inode.Grow.{map_direct-Grown, map_indirect-Grown}

-- What `bmap` returns for block `bn` of the content.
pub record Mapped (bn : ℕ) (ip : Inode) (s : Fs) (a : ℕ) (ip' : Inode) (t : Fs) : Type 0 where
  pub sound : IsSound ip' t
  pub here : slot ip' t bn ≡ a
  pub same : (j : ℕ) → j < indirect → (bn == j) ≡ false → slot ip' t j ≡ slot ip s j
  pub nonzero : a ≢ 0
  pub found : slot ip s bn ≢ 0 → slot ip s bn ≡ a
  pub fields : ip' ≡ record ip { addrs = ip'.addrs }
  pub sizes : t.size ≡ s.size
  pub starts : t.bmapstart ≡ s.bmapstart
  pub inodes : t.inodestart ≡ s.inodestart
  pub costs : free s ≤ free t + 2
  pub still : (i : ℕ) → i < s.size → used s i ≡ true → used t i ≡ true
  pub kept :
      (m : ℕ)
      → m < s.size
      → used s m ≡ true
      → ((i : ℕ) → i < s.size → (m == bblock i s) ≡ false)
      → (slot ip s indirect == m) ≡ false
      → t.block m ≡ s.block m

direct-Mapped :
    (k : ℕ) (ip : Inode) (s : Fs) (a : ℕ) (ip' : Inode) (t : Fs)
    → k < indirect
    → Grown k ip s a ip' t
    → Mapped k ip s a ip' t
direct-Mapped k ip s a ip' t l g = record {
  sound = g.sound;
  here = g.slots k (omega (arith, l)) ∙ ground arith;
  same = λ j m e. g.slots j (omega (arith, m)) ∙ rw e refl;
  nonzero = g.nonzero;
  found = g.found;
  fields = g.fields;
  sizes = g.sizes;
  starts = g.starts;
  inodes = g.inodes;
  costs = omega (arith, g.costs);
  still = g.still;
  kept = g.kept;
}

moved_apart :
    (ip : Inode) (s : Fs) (b : ℕ) (mid : Inode) (u : Fs) (m : ℕ)
    → Grown indirect ip s b mid u
    → used s m ≡ true
    → (slot ip s indirect == m) ≡ false
    → (slot mid u indirect == m) ≡ false
moved_apart ip s b mid u m g h d =
    let now : slot mid u indirect ≡ b = g.slots indirect (omega arith) in
    elim g.chosen [
      | inl old ↦ subst (λ x. (x == m) ≡ false) (old ∙ sym now) d
      | inr new ↦ elim (Bool-cases (slot mid u indirect == m)) [
        | inr q ↦ q
        | inl q ↦ absurd (cc ((==_iff _ _).0 q, now, new, h))
      ]
    ]

-- The indirect block first, and then its entry.
twice-Mapped :
    (k : ℕ) (ip : Inode) (s : Fs) (b : ℕ) (mid : Inode) (u : Fs) (a : ℕ) (ip' : Inode) (t : Fs)
    → k < indirect
    → Grown indirect ip s b mid u
    → Grown k mid u a ip' t
    → Mapped k ip s a ip' t
twice-Mapped k ip s b mid u a ip' t l g h =
    let before : slot mid u k ≡ slot ip s k = g.slots k (omega (arith, l)) ∙ ground (arith, l) in
    record {
      sound = h.sound;
      here = h.slots k (omega (arith, l)) ∙ ground arith;
      same = λ j m e.
          h.slots j (omega (arith, m)) ∙ rw e (g.slots j (omega (arith, m)) ∙ ground (arith, m));
      nonzero = h.nonzero;
      found = λ ne. sym before ∙ h.found (λ z. ne (sym before ∙ z));
      fields = h.fields ∙ ap (λ (x : Inode). record x { addrs = ip'.addrs }) g.fields;
      sizes = h.sizes ∙ g.sizes;
      starts = h.starts ∙ g.starts;
      inodes = h.inodes ∙ g.inodes;
      costs = omega (arith, g.costs, h.costs);
      still = λ i m e. h.still i (omega (arith, m, g.sizes)) (g.still i m e);
      kept = λ m lm e c d.
          h.kept m (omega (arith, lm, g.sizes)) (g.still m lm e)
            (λ i li. rw g.starts (c i (omega (arith, li, g.sizes))))
            (moved_apart ip s b mid u m g e d)
          ∙ g.kept m lm e c d;
    }

-- `bmap` of a block of the content returns the block that the inode has there, or a new one that it
-- puts there, and leaves all other blocks of the content as they were; or the disk has at most one free
-- block.
pub bmap-Mapped :
    (bn : ℕ) (ip : Inode) (s : Fs)
    → IsSound ip s
    → bn < indirect
    → ((bmap bn ip s ≡ panic) × (free s < 2))
      ⊎ ((a : ℕ) × (ip' : Inode) × (t : Fs) × (bmap bn ip s ≡ done (a, ip', t))
          × Mapped bn ip s a ip' t)
unfolding bmap
bmap-Mapped bn ip s v l = elim (Bool-cases (ltb bn ndirect)) [
  | inl e ↦
      let low : (bn == ndirect) ≡ false = ground (arith, e) in
      elim (map_direct-Grown bn ip s v (ground (arith, e))) [
        | inl (q, full) ↦ inl (rw e q, omega (arith, full))
        | inr (a, ip', t, q, g) ↦ inr (
          a,
          ip',
          t,
          rw e q,
          direct-Mapped bn ip s a ip' t l (subst (λ k. Grown k ip s a ip' t) (rw low refl) g),
        )
      ]
  | inr e ↦
      let entry : ltb (bn - ndirect) nindirect ≡ true = ground (arith, e, l) in
      elim (map_direct-Grown ndirect ip s v (omega arith)) [
        | inl (q, full) ↦ inl (rw (bmap, e, entry, q) refl, omega (arith, full))
        | inr (b, mid, u, q, g) ↦
            let b_at : mid.addrs ndirect ≡ b = g.slots indirect (omega arith) in
            elim (map_indirect-Grown (bn - ndirect) mid u g.sound (ground (arith, entry))
              (λ z. g.nonzero (sym b_at ∙ z))) [
                | inl (r, full) ↦
                    inl (rw (bmap, e, entry, q) (rw b_at at r), omega (arith, full, g.costs))
                | inr (a, ip', t, r, h) ↦ inr (
                  a,
                  ip',
                  t,
                  rw (bmap, e, entry, q) (rw b_at at r),
                  twice-Mapped bn ip s b mid u a ip' t l g
                      (subst (λ k. Grown k mid u a ip' t) (ground (arith, e)) h),
                )
              ]
      ]
]
