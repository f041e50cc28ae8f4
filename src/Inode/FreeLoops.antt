-- ===== src/Inode/FreeLoops.antt =====
-- The loops of `itrunc` (fs.c).
use ele.Strings.{Bytes}
use ele.Base.{
  ℕ, zero, suc, ◌+◌, ◌*◌, ◌≤◌, ◌<◌, ◌≡◌, refl, ◌∙◌, subst, inl, inr, ◌&&◌, arith, ltb, leb, ◌==◌,
  if◌then◌else◌, Bool-cases, done, store, store_ne, load_word,
}
use ele.Inode.{Inode, ndirect, nindirect, Bytes}
use ele.Inode.Trunc.{free_direct, free_entries}
use ele.Inode.Freed.{Freed, Freed-skip, Freed-next}
use ele.Inode.Slots.{IsPlaced}
use ele.Fs.Bitmap.{cleared}
use ele.Fs.{Fs}

-- The inode `ip` with the addresses from `i` on cleared, `n` of them.
abbrev pub Cut : (n i : ℕ) → Inode → Inode → Type 0
Cut n i ip ip' =
    (ip'.inum ≡ ip.inum)
    × ((j : ℕ) → ip'.addrs j ≡ (if leb i j && ltb j (i + n) then 0 else ip.addrs j))

cut_step :
    (i n j : ℕ) (addrs : ℕ → ℕ)
    → (if leb (i + 1) j && ltb j (i + 1 + n) then 0 else store addrs i 0 j)
      ≡ (if leb i j && ltb j (i + suc n) then 0 else addrs j)
unfolding store
cut_step i n j addrs = ground arith

-- The loops free the blocks of the slots.
module _ (slots : ℕ → ℕ) (s : Fs) (iblk : ℕ) (p : IsPlaced s iblk slots) where
  pub free_direct-Freed :
      (n i : ℕ) (ip : Inode) (u : Fs)
      → i + n ≤ ndirect
      → ((j : ℕ) → i ≤ j → j < ndirect → ip.addrs j ≡ slots j)
      → Freed slots s i u
      → (ip' : Inode) × (t : Fs) × (free_direct n i ip u ≡ done (ip', t))
        × Cut n i ip ip'
        × Freed slots s (i + n) t
  unfolding free_direct
  free_direct-Freed zero i ip u l same f =
      (ip, u, refl, (refl, λ j. ground arith), subst (λ k. Freed slots s k u) (omega arith) f)
  free_direct-Freed (suc n) i ip u l same f =
      let here = same i (omega arith) (omega (arith, l)) in
      let next : i + 1 + n ≡ i + suc n = omega arith in
      elim (Bool-cases (ip.addrs i == 0)) [
        | inl e ↦
            let (ip', t, q, (num, cut), g) =
              free_direct-Freed n (i + 1) ip u (omega (arith, l))
                (λ j a b. same j (omega (arith, a)) b)
                (subst (λ k. Freed slots s k u) (omega arith)
                  (Freed-skip slots s i u (ground (arith, here, e)) f)) in
            (
              ip',
              t,
              rw (free_direct, e) q,
              (num, λ j. cut j ∙ ground (arith, e)),
              subst (λ k. Freed slots s k t) next g,
            )
        | inr e ↦
            let (run, after) =
              Freed-next slots s iblk p i u (omega (arith, l)) (λ z. ground (arith, here, e, z))
                f in
            let (ip', t, q, (num, cut), g) =
              free_direct-Freed n (i + 1) (record ip { addrs = store ip.addrs i 0 })
                (cleared (slots i) u) (omega (arith, l))
                (λ j a b. store_ne ip.addrs i 0 j (ground (arith, a)) ∙ same j (omega (arith, a)) b)
                (subst (λ k. Freed slots s k (cleared (slots i) u)) (omega arith) after) in
            (
              ip',
              t,
              rw (free_direct, e, here, run) q,
              (num, λ j. cut j ∙ cut_step i n j ip.addrs),
              subst (λ k. Freed slots s k t) next g,
            )
      ]

  pub free_entries-Freed :
      (n j : ℕ) (a : Bytes) (u : Fs)
      → j + n ≤ nindirect
      → ((k : ℕ) → k < nindirect → load_word a (4 * k) ≡ slots (ndirect + k))
      → Freed slots s (ndirect + j) u
      → (t : Fs) × (free_entries n j a u ≡ done t) × Freed slots s (ndirect + (j + n)) t
  unfolding free_entries
  free_entries-Freed zero j a u l same f = (u, refl, subst (λ k. Freed slots s k u) (omega arith) f)
  free_entries-Freed (suc n) j a u l same f =
      let here = same j (omega (arith, l)) in
      let next : ndirect + (j + 1 + n) ≡ ndirect + (j + suc n) = omega arith in
      elim (Bool-cases (load_word a (4 * j) == 0)) [
        | inl e ↦
            let (t, q, g) = free_entries-Freed n (j + 1) a u (omega (arith, l)) same (
              subst (λ k. Freed slots s k u) (omega arith)
                (Freed-skip slots s (ndirect + j) u (ground (arith, here, e)) f)) in
            (t, rw (free_entries, e) q, subst (λ k. Freed slots s k t) next g)
        | inr e ↦
            let (run, after) =
              Freed-next slots s iblk p (ndirect + j) u (omega (arith, l))
                (λ z. ground (arith, here, e, z)) f in
            let (t, q, g) =
              free_entries-Freed n (j + 1) a (cleared (slots (ndirect + j)) u) (omega (arith, l))
                same
                (subst (λ k. Freed slots s k (cleared (slots (ndirect + j)) u)) (omega arith)
                  after) in
            (t, rw (free_entries, e, here, run) q, subst (λ k. Freed slots s k t) next g)
      ]
