-- ===== src/Mlfq/Choice.antt =====
-- What one round of `scheduler` does: which process it runs, and that it does not panic.
use ele.Base.{
  ℕ, zero, suc, ◌+◌, ◌<◌, ◌≡◌, refl, subst, ◌⊎◌, inl, inr, true, false, none, some, arith, dec_lt,
  find_index-Found, NoneFound, length, get_elem?, get_elem?_of_lt, lt_of_get_elem?,
}
use ele.Proc.Table.{Kernel, Proc, nproc, get_or_of_get_elem?}
use ele.Mlfq.Queues.{candidate, waits_at, can_mlfq}
use ele.Mlfq.Scheduler.{first_level}

module _ (k : Kernel) (full : length k.table ≡ nproc) where
  candidate_at :
      (level i : ℕ) {p : Proc}
      → get_elem? k.table i ≡ some p
      → waits_at level p ≡ true
      → candidate k level i ≡ true
  candidate_at level i at w = rw (get_or_of_get_elem? k.table i at) w

  quiet :
      (level : ℕ)
      → NoneFound (waits_at level) k.table
      → (j : ℕ) → j < nproc
      → candidate k level j ≡ false
  quiet level nothing j l =
      let (p, at) = get_elem?_of_lt k.table j (omega arith) in
      rw (get_or_of_get_elem? k.table j at) (nothing j p at)

  -- `can_mlfq` tells whether a process of the table waits at the level.
  can_mlfq-cases :
      (level : ℕ)
      → ((can_mlfq k level ≡ false) × ((j : ℕ) → j < nproc → candidate k level j ≡ false))
        ⊎ ((can_mlfq k level ≡ true) × ((i : ℕ) × (i < nproc) × (candidate k level i ≡ true)))
  unfolding can_mlfq
  can_mlfq-cases level = elim (find_index-Found (waits_at level) k.table) [
    | inl (r, nothing) ↦ inl (rw (r, can_mlfq) refl, quiet level nothing)
    | inr (i, r, f) ↦ inr (
      rw (r, can_mlfq) refl,
      (i, omega (arith, lt_of_get_elem? k.table i f.at), candidate_at level i f.at f.passes),
    )
  ]

  abbrev pub Deserted : ℕ → Type 0
  Deserted level = (j : ℕ) → j < nproc → candidate k level j ≡ false

  abbrev pub Occupied : ℕ → Type 0
  Occupied level = (i : ℕ) × (i < nproc) × (candidate k level i ≡ true)

  -- The search for a level finds the first one where a process waits.
  pub first_level-cases :
      (n i : ℕ)
      → ((m : ℕ) → m < i → Deserted m)
      → ((first_level k n i ≡ none) × ((m : ℕ) → m < i + n → Deserted m))
        ⊎ ((l : ℕ) × (first_level k n i ≡ some l)
            × (l < i + n)
            × Occupied l
            × ((m : ℕ) → m < l → Deserted m))
  unfolding first_level
  first_level-cases zero i below = inl (refl, λ m l. below m (omega arith))
  first_level-cases (suc n) i below = elim (can_mlfq-cases i) [
    | inr (t, o) ↦ inr (i, rw t refl, omega arith, o, below)
    | inl (t, nothing) ↦
        elim (first_level-cases n (suc i) (λ m l. elim (dec_lt m i) [
          | yes p ↦ below m p
          | no p ↦ subst Deserted {x = i} {y = m} (omega arith) nothing
        ])) [
          | inl (r, rest) ↦ inl (rw t r, λ m l. rest m (omega arith))
          | inr (l, r, b, o, rest) ↦ inr (l, rw t r, omega arith, o, rest)
        ]
  ]
