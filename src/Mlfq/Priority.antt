-- ===== src/Mlfq/Priority.antt =====
-- `next_proc` at level 3 and level 99: the best of the waiting processes, and among equals the one
-- that the loop meets first.
use ele.Base.{
  ℕ, zero, suc, ◌+◌, ◌≤◌, ◌<◌, ◌≡◌, refl, subst, ◌⊎◌, inl, inr, Bool, true, false, Option, none,
  some, arith, dec_lt, Bool-cases, ℤ, ◌≤ℤ◌, ◌<ℤ◌, if◌then◌else◌, ◌%◌, done, undefined,
}
use ele.Proc.Table.{Kernel, nproc, proc_at}
use ele.Mlfq.Queues.{
  ring, candidate, select, consider, higher, lower, next_by_priority, next_monopoly, next_proc,
  at_position,
}
use ele.Mlfq.RoundRobin.{IsPlaced, position, distance}

-- What the comparisons of `next_proc` have in common.
pub record IsStrict (beats : ℕ → ℕ → Bool) : Type 0 where
  pub irrefl : (a : ℕ) → beats a a ≡ false
  pub trans : (a b c : ℕ) → beats a b ≡ true → beats b c ≡ true → beats a c ≡ true
  pub cotrans : (a b c : ℕ) → beats a b ≡ false → beats c b ≡ true → beats c a ≡ true

module _ (visit : ℕ → ℕ) (cand : ℕ → Bool) (beats : ℕ → ℕ → Bool) where
  -- The candidate met in round `m` is the first of the best among the rounds before `i`.
  pub record Best (i m : ℕ) : Type 0 where
    pub before : m < i
    pub waits : cand (visit m) ≡ true
    pub best : (j : ℕ) → j < i → cand (visit j) ≡ true → beats (visit j) (visit m) ≡ false
    pub first : (j : ℕ) → j < m → cand (visit j) ≡ true → beats (visit m) (visit j) ≡ true

  abbrev pub Chosen : ℕ → Option ℕ → Type 0
  Chosen i temp =
      ((temp ≡ none) × ((j : ℕ) → j < i → cand (visit j) ≡ false))
      ⊎ ((m : ℕ) × (temp ≡ some (visit m)) × Best i m)

  below-suc : {P : ℕ → Type 0} (i : ℕ) → ((j : ℕ) → j < i → P j) → P i → (j : ℕ) → j < suc i → P j
  below-suc {P} i f p j l = elim (dec_lt j i) [
    | yes q ↦ f j q
    | no q ↦ subst P {x = i} {y = j} (omega arith) p
  ]

  module _ (o : IsStrict beats) where
    Best-suc :
        (i m : ℕ)
        → Best i m
        → (cand (visit i) ≡ true → beats (visit i) (visit m) ≡ false)
        → Best (suc i) m
    Best-suc i m b keep = record {
      before = omega (arith, b.before);
      waits = b.waits;
      best =
          below-suc {P = λ j. cand (visit j) ≡ true → beats (visit j) (visit m) ≡ false} i b.best
            keep;
      first = b.first;
    }

    Best-new :
        (i m : ℕ)
        → Best i m
        → cand (visit i) ≡ true
        → beats (visit i) (visit m) ≡ true
        → Best (suc i) i
    Best-new i m b c w = record {
      before = omega arith;
      waits = c;
      best =
          below-suc {P = λ j. cand (visit j) ≡ true → beats (visit j) (visit i) ≡ false} i
            (λ j l q. elim (Bool-cases (beats (visit j) (visit i))) [
              | inl t ↦ absurd (cc (o.trans (visit j) (visit i) (visit m) t w, b.best j l q))
              | inr f ↦ f
            ])
            (λ _. o.irrefl (visit i));
      first = λ j l q. o.cotrans (visit j) (visit m) (visit i) (b.best j l q) w;
    }

    Best-first :
        (i : ℕ)
        → ((j : ℕ) → j < i → cand (visit j) ≡ false)
        → cand (visit i) ≡ true
        → Best (suc i) i
    Best-first i nothing c = record {
      before = omega arith;
      waits = c;
      best =
          below-suc {P = λ j. cand (visit j) ≡ true → beats (visit j) (visit i) ≡ false} i
            (λ j l q. absurd (cc (nothing j l, q))) (λ _. o.irrefl (visit i));
      first = λ j l q. absurd (cc (nothing j l, q));
    }

    Chosen-suc :
        (i : ℕ) (temp : Option ℕ)
        → Chosen i temp
        → Chosen (suc i) (if cand (visit i) then consider visit cand beats (visit i) temp else temp)
    Chosen-suc i temp (inl (e, nothing)) = elim (Bool-cases (cand (visit i))) [
      | inl c ↦ inr (i, rw (c, e) refl, Best-first i nothing c)
      | inr c ↦ inl (rw c e, below-suc {P = λ j. cand (visit j) ≡ false} i nothing c)
    ]
    Chosen-suc i temp (inr (m, e, b)) = elim (Bool-cases (cand (visit i))) [
      | inr c ↦ inr (m, rw c e, Best-suc i m b (λ q. absurd (cc (c, q))))
      | inl c ↦ elim (Bool-cases (beats (visit i) (visit m))) [
        | inl w ↦ inr (i, rw (c, e, w) refl, Best-new i m b c w)
        | inr w ↦ inr (m, rw (c, e, w) refl, Best-suc i m b (λ _. w))
      ]
    ]

    pub select-Chosen :
        (n i bound : ℕ) (temp : Option ℕ)
        → i + n ≡ bound
        → Chosen i temp
        → Chosen bound (select visit cand beats n i temp)
    unfolding select
    select-Chosen zero i bound temp e c =
        subst (λ b. Chosen b temp) {x = i} {y = bound} (omega arith) c
    select-Chosen (suc n) i bound temp e c =
        select-Chosen n (suc i) bound _ (omega arith) (Chosen-suc i temp c)

pub higher-IsStrict : (k : Kernel) → IsStrict (higher k)
higher-IsStrict k = record {
  irrefl = λ a. ground arith;
  trans = λ a b c p q. ground arith;
  cotrans = λ a b c p q. ground arith;
}

lower-IsStrict : (k : Kernel) → IsStrict (lower k)
lower-IsStrict k = record {
  irrefl = λ a. ground arith;
  trans = λ a b c p q. ground arith;
  cotrans = λ a b c p q. ground arith;
}

abbrev pub priority_at : Kernel → ℕ → ℤ
priority_at k i = (proc_at k i).priority

-- The pick at level 3.
pub record Highest (k : Kernel) (s : ℕ) : Type 0 where
  pub within : s < nproc
  pub waits : candidate k 3 s ≡ true
  pub highest : (j : ℕ) → j < nproc → candidate k 3 j ≡ true → priority_at k j ≤ℤ priority_at k s
  pub nearest :
      (j : ℕ)
      → j < nproc
      → candidate k 3 j ≡ true
      → priority_at k j ≡ priority_at k s
      → distance (position k 3) s ≤ distance (position k 3) j

-- The pick at level 99.
pub record Earliest (k : Kernel) (s : ℕ) : Type 0 where
  pub within : s < nproc
  pub waits : candidate k 99 s ≡ true
  pub lowest : (j : ℕ) → j < nproc → candidate k 99 j ≡ true → priority_at k s ≤ℤ priority_at k j
  pub first : (j : ℕ) → j < s → candidate k 99 j ≡ true → priority_at k s <ℤ priority_at k j

Best-Earliest :
    (k : Kernel) (m : ℕ) → Best (λ i. i) (candidate k 99) (lower k) nproc m → Earliest k m
Best-Earliest k m b = record {
  within = b.before;
  waits = b.waits;
  lowest = λ j l q. ground (arith, b.best j l q);
  first = λ j l q. ground (arith, b.first j l q);
}

-- What `next_proc` does at level 99.
abbrev pub NextEarliest : Kernel → Type 0
NextEarliest k =
    ((next_proc k 99 ≡ done (none, k)) × ((j : ℕ) → j < nproc → candidate k 99 j ≡ false))
    ⊎ ((s : ℕ) × (next_proc k 99 ≡ done (some s, k)) × Earliest k s)

-- What `next_proc` does at level 3.
abbrev pub NextHighest : Kernel → Type 0
NextHighest k =
    ((next_proc k 3 ≡ undefined) × ((j : ℕ) → j < nproc → candidate k 3 j ≡ false))
    ⊎ ((s : ℕ) × (next_proc k 3 ≡ done (some s, at_position k 3 ((s + 1) % nproc))) × Highest k s)

-- At level 99 `next_proc` changes nothing. It returns null when no process of the table waits in the
-- monopoly queue, and otherwise the waiting process with the lowest `priority`, which there is the
-- turn that `setmonopoly` gave it; among equals it returns the first of the table.
pub next_proc-Earliest : (k : Kernel) → NextEarliest k
unfolding next_proc next_monopoly
next_proc-Earliest k =
    elim (select-Chosen (λ i. i) (candidate k 99) (lower k) (lower-IsStrict k) nproc 0 nproc none
      (omega arith) (inl (refl, λ j l. absurd (omega arith)))) [
        | inl (e, nothing) ↦ inl (rw e refl, nothing)
        | inr (m, e, b) ↦ inr (m, rw e refl, Best-Earliest k m b)
      ]

module _ (k : Kernel) (v : IsPlaced k) where
  ring-3 : (j : ℕ) → j < nproc → ring k 3 (distance (position k 3) j) ≡ j
  ring-3 j l = omega (arith, v.within 3)

  distance-ring_3 : (m : ℕ) → m < nproc → distance (position k 3) (ring k 3 m) ≡ m
  distance-ring_3 m l = omega (arith, v.within 3)

  Best-Highest :
      (m : ℕ) → Best (ring k 3) (candidate k 3) (higher k) nproc m → Highest k (ring k 3 m)
  Best-Highest m b = record {
    within = omega arith;
    waits = b.waits;
    highest = λ j l q. not_beaten j l q;
    nearest = λ j l q e. elim (dec_lt (distance (position k 3) j) m) [
      | no p ↦ omega (arith, distance-ring_3 m b.before)
      | yes p ↦ absurd (beaten j l q e p)
    ];
  }
    where
      at :
          (j : ℕ)
          → j < nproc
          → candidate k 3 j ≡ true
          → candidate k 3 (ring k 3 (distance (position k 3) j)) ≡ true
      at j l q = rw (ring-3 j l) q

      not_beaten :
          (j : ℕ)
          → j < nproc
          → candidate k 3 j ≡ true
          → priority_at k j ≤ℤ priority_at k (ring k 3 m)
      not_beaten j l q =
          let no_beat : higher k j (ring k 3 m) ≡ false =
            subst (λ i. higher k i (ring k 3 m) ≡ false) (ring-3 j l)
              (b.best (distance (position k 3) j) (omega arith) (at j l q)) in
          ground arith

      beaten :
          (j : ℕ)
          → j < nproc
          → candidate k 3 j ≡ true
          → priority_at k j ≡ priority_at k (ring k 3 m)
          → distance (position k 3) j < m
          → ⊥
      beaten j l q e p =
          let beat : higher k (ring k 3 m) j ≡ true =
            subst (λ i. higher k (ring k 3 m) i ≡ true) (ring-3 j l)
              (b.first (distance (position k 3) j) p (at j l q)) in
          ground arith

  -- At level 3 of a kernel with valid queue positions, `next_proc` subtracts from a null pointer
  -- exactly when no process of the table waits there. Otherwise it returns a waiting process of the
  -- highest priority, among equals the one nearest to the queue position, and it sets the position
  -- to the index after it.
  pub next_proc-Highest : NextHighest k
  unfolding next_proc next_by_priority
  next_proc-Highest =
      elim (select-Chosen (ring k 3) (candidate k 3) (higher k) (higher-IsStrict k) nproc 0 nproc
        none (omega arith) (inl (refl, λ j l. absurd (omega arith)))) [
          | inl (e, nothing) ↦ inl (
            rw (e, next_by_priority) refl,
            λ j l.
                subst (λ i. candidate k 3 i ≡ false) (ring-3 j l)
                  (nothing (distance (position k 3) j) (omega arith)),
          )
          | inr (m, e, b) ↦ inr (ring k 3 m, rw (e, next_by_priority) refl, Best-Highest m b)
        ]
