-- ===== src/Icache/Find.antt =====
-- Which entry of the table `iget` (fs.c) returns.
use ele.Base.{
  ℕ, zero, suc, ◌+◌, ◌<◌, ◌≡◌, refl, subst, ◌⊎◌, inl, inr, true, false, Option, none, some, arith,
  ◌==◌, Bool-cases, Outcome, done, panic,
}
use ele.Icache.{
  Icache, iget, iget_loop, is_inode, is_empty, next_empty, recycled, idup, set_entry, ninode,
}

-- `empty` after the entries below `i`.
abbrev Scanned : Option ℕ → ℕ → Icache → Type 0
Scanned none i c = (j : ℕ) → j < i → is_empty (c.entry j) ≡ false
Scanned (some e) i c = (e < i) × (is_empty (c.entry e) ≡ true)

Scanned-next :
    (empty : Option ℕ) (i : ℕ) (c : Icache)
    → Scanned empty i c
    → Scanned (next_empty empty i c) (i + 1) c
Scanned-next (some e) i c (l, z) = (omega (arith, l), z)
Scanned-next none i c h = elim (Bool-cases (is_empty (c.entry i))) [
  | inl e ↦ rw e (omega arith, e)
  | inr e ↦ rw e (λ j l. elim (Bool-cases (j == i)) [
    | inl q ↦ subst (λ k. is_empty (c.entry k) ≡ false) (ground (arith, q)) e
    | inr q ↦ h j (ground (arith, q, l))
  ])
]

-- The results of `iget`.
abbrev pub Gets : (n dev inum : ℕ) → Icache → Outcome (ℕ × Icache) → Type 0
Gets n dev inum c r =
    ((k : ℕ) × (k < n) × (is_inode dev inum (c.entry k) ≡ true) × (r ≡ done (k, idup k c)))
    ⊎ (((j : ℕ) → j < n → is_inode dev inum (c.entry j) ≡ false)
        × (((k : ℕ) × (k < n)
              × (is_empty (c.entry k) ≡ true)
              × (r ≡ done (k, set_entry k (recycled dev inum k c) c)))
            ⊎ (((j : ℕ) → j < n → is_empty (c.entry j) ≡ false) × (r ≡ panic))))

iget_loop-Gets :
    (n i dev inum : ℕ) (empty : Option ℕ) (c : Icache)
    → Scanned empty i c
    → ((j : ℕ) → j < i → is_inode dev inum (c.entry j) ≡ false)
    → Gets (i + n) dev inum c (iget_loop n i dev inum empty c)
unfolding iget_loop
iget_loop-Gets zero i dev inum none c h absent =
    inr (λ j l. absent j (omega (arith, l)), inr (λ j l. h j (omega (arith, l)), refl))
iget_loop-Gets zero i dev inum (some e) c (l, z) absent =
    inr (λ j m. absent j (omega (arith, m)), inl (e, omega (arith, l), z, refl))
iget_loop-Gets (suc n) i dev inum empty c h absent =
    elim (Bool-cases (is_inode dev inum (c.entry i))) [
      | inl e ↦ inl (i, omega arith, e, rw (iget_loop, e) refl)
      | inr e ↦
          let next : i + 1 + n ≡ i + suc n = omega arith in
          let rest =
            iget_loop-Gets n (i + 1) dev inum (next_empty empty i c) c (Scanned-next empty i c h)
              (λ j l. elim (Bool-cases (j == i)) [
                | inl q ↦ subst (λ k. is_inode dev inum (c.entry k) ≡ false) (ground (arith, q)) e
                | inr q ↦ absent j (ground (arith, q, l))
              ]) in
          rw (iget_loop, e)
            (subst (λ m. Gets m dev inum c (iget_loop n (i + 1) dev inum (next_empty empty i c) c))
              next rest)
    ]

pub iget-Gets : (dev inum : ℕ) (c : Icache) → Gets ninode dev inum c (iget dev inum c)
unfolding iget
iget-Gets dev inum c =
    iget_loop-Gets ninode 0 dev inum none c (λ j l. absurd (omega (arith, l)))
      (λ j l. absurd (omega (arith, l)))
