-- ===== src/Mlfq/RoundRobin.antt =====
-- `next_proc` at levels 0 to 2: which process it picks, and that it passes none over for long.
use ele.Base.{
  done, leb, ℕ, zero, suc, ◌+◌, ◌-◌, ◌%◌, ◌≤◌, ◌<◌, ◌≡◌, ◌≢◌, refl, ap, subst, ◌⊎◌, inl, inr, true,
  false, none, some, arith, dec_lt, Bool-cases, get_or, get_or-set_self, length, ◌∙◌,
}
use ele.Proc.Table.{Kernel, nproc}
use ele.Mlfq.Queues.{ring, candidate, round_robin, next_round_robin, next_proc, at_position}

module _ (k : Kernel) (level : ℕ) where
  -- The first round `d` in which the loop meets a process that waits at the level.
  pub record FirstRound (i bound d : ℕ) : Type 0 where
    pub after : i ≤ d
    pub before : d < bound
    pub waits : candidate k level (ring k level d) ≡ true
    pub first : (j : ℕ) → i ≤ j → j < d → candidate k level (ring k level j) ≡ false

  abbrev pub NoRound : (i bound : ℕ) → Type 0
  NoRound i bound = (j : ℕ) → i ≤ j → j < bound → candidate k level (ring k level j) ≡ false

  skip :
      (i bound : ℕ)
      → candidate k level (ring k level i) ≡ false
      → NoRound (suc i) bound
      → NoRound i bound
  skip i bound e rest j h l = elim (dec_lt i j) [
    | yes p ↦ rest j p l
    | no p ↦ subst (λ m. candidate k level (ring k level m) ≡ false) {x = i} {y = j} (omega arith) e
  ]

  pub round_robin-cases :
      (n i bound : ℕ)
      → i + n ≡ bound
      → ((round_robin k level n i ≡ none) × NoRound i bound)
        ⊎ ((d : ℕ) × (round_robin k level n i ≡ some (ring k level d)) × FirstRound i bound d)
  unfolding round_robin
  round_robin-cases zero i bound e = inl (refl, λ j h l. absurd (omega arith))
  round_robin-cases (suc n) i bound e = elim (Bool-cases (candidate k level (ring k level i))) [
    | inl t ↦ inr (
      i,
      rw t refl,
      record {
        after = omega arith;
        before = omega arith;
        waits = t;
        first = λ j h l. absurd (omega arith);
      },
    )
    | inr t ↦ elim (round_robin-cases n (suc i) bound (omega arith)) [
      | inl (r, none_waits) ↦ inl (rw t r, skip i bound t none_waits)
      | inr (d, r, f) ↦ inr (
        d,
        rw t r,
        record {
          after = omega (arith, f.after);
          before = f.before;
          waits = f.waits;
          first = skip i d t f.first;
        },
      )
    ]
  ]

-- The queue positions are indices into the table.
pub record IsPlaced (k : Kernel) : Type 0 where
  pub four : length k.queue_position ≡ 4
  pub within : (level : ℕ) → get_or k.queue_position level 0 < nproc

abbrev pub position : Kernel → (level : ℕ) → ℕ
position k level = get_or k.queue_position level 0

-- How far an index is from a position, going round the table.
abbrev pub distance : (q i : ℕ) → ℕ
distance q i = (i + nproc - q) % nproc

-- A waiting process that is nearest to the queue position.
pub record Nearest (k : Kernel) (level s : ℕ) : Type 0 where
  pub within : s < nproc
  pub waits : candidate k level s ≡ true
  pub nearest :
      (j : ℕ)
      → j < nproc
      → candidate k level j ≡ true
      → distance (position k level) s ≤ distance (position k level) j

ring-distance : (q j : ℕ) → q < nproc → j < nproc → (q + distance q j) % nproc ≡ j
ring-distance q j h l = omega arith

distance-ring : (q d : ℕ) → q < nproc → d < nproc → distance q ((q + d) % nproc) ≡ d
distance-ring q d h l = omega arith

-- What `next_proc` does at a level from 0 to 2: with no waiting process it returns null and changes
-- nothing; otherwise it picks the nearest, and moves the position to the index after it.
abbrev pub NextNearest : Kernel → (level : ℕ) → Type 0
NextNearest k level =
    ((next_proc k level ≡ done (none, k)) × ((j : ℕ) → j < nproc → candidate k level j ≡ false))
    ⊎ ((s : ℕ) × (next_proc k level ≡ done (some s, at_position k level ((s + 1) % nproc)))
        × Nearest k level s)

module _ (k : Kernel) (level : ℕ) (v : IsPlaced k) where
  ring-at : (j : ℕ) → j < nproc → ring k level (distance (position k level) j) ≡ j
  ring-at j l = ring-distance (position k level) j (v.within level) l

  FirstRound-Nearest : (d : ℕ) → FirstRound k level 0 nproc d → Nearest k level (ring k level d)
  FirstRound-Nearest d f = record {
    within = omega arith;
    waits = f.waits;
    nearest = λ j l w. elim (dec_lt (distance (position k level) j) d) [
      | yes p ↦ absurd (
          cc (
            f.first (distance (position k level) j) (omega arith) p,
            ap (candidate k level) (ring-at j l),
            w,
          ))
      | no p ↦ omega (arith, distance-ring (position k level) d (v.within level) f.before)
    ];
  }

  pub next_round_robin-cases :
      ((next_round_robin k level ≡ (none, k)) × ((j : ℕ) → j < nproc → candidate k level j ≡ false))
      ⊎ ((s : ℕ) × (next_round_robin k level ≡ (some s, at_position k level ((s + 1) % nproc)))
          × Nearest k level s)
  unfolding next_round_robin
  next_round_robin-cases = elim (round_robin-cases k level nproc 0 nproc (omega arith)) [
    | inl (r, nothing) ↦ inl (
      rw (r, next_round_robin) refl,
      λ j l.
          subst (λ i. candidate k level i ≡ false) (ring-at j l)
            (nothing (distance (position k level) j) (omega arith) (omega arith)),
    )
    | inr (d, r, f) ↦ inr (ring k level d, rw (r, next_round_robin) refl, FirstRound-Nearest d f)
  ]

  -- At a level from 0 to 2 of a kernel with valid queue positions, `next_proc` returns null and
  -- changes nothing when no process of the table waits at the level. Otherwise it returns a process
  -- that waits there and is nearest to the level's queue position, going round the table, and it
  -- sets that position to the index after it.
  pub next_proc-Nearest : level ≤ 2 → NextNearest k level
  unfolding next_proc
  next_proc-Nearest h = elim next_round_robin-cases [
    | inl (r, nothing) ↦ inl (rw (low, r) refl, nothing)
    | inr (s, r, f) ↦ inr (s, rw (low, r) refl, f)
  ]
    where
      low : leb level 2 ≡ true
      low = ground arith

  -- The position after the pick is nearer to every other waiting process.
  distance-pick :
      (s j : ℕ)
      → Nearest k level s
      → j < nproc
      → candidate k level j ≡ true
      → s ≢ j
      → distance ((s + 1) % nproc) j < distance (position k level) j
  distance-pick s j f l w ne = omega (arith, f.nearest j l w, f.within, v.within level)

  -- If a process waits at a level from 0 to 2 and `next_proc` picks another one there, then the
  -- level's queue position comes strictly nearer to the one that waits.
  next_proc-fair :
      {s : ℕ} {k' : Kernel} (j : ℕ)
      → level ≤ 2
      → j < nproc
      → candidate k level j ≡ true
      → next_proc k level ≡ done (some s, k')
      → s ≢ j
      → distance (position k' level) j < distance (position k level) j
  next_proc-fair {s} {k'} j h l w e ne = elim (next_proc-Nearest h) [
    | inl (r, nothing) ↦ absurd (cc (r, e))
    | inr (t, r, f) ↦
        let same : s ≡ t = ground (arith, r, e) in
        let after : k' ≡ at_position k level ((t + 1) % nproc) = ground (arith, r, e) in
        rw
          (
            after,
            get_or-set_self k.queue_position level ((t + 1) % nproc) 0 (omega (arith, v.four)),
          )
          (distance-pick t j f l w (λ p. ne (same ∙ p)))
  ]

-- A process waits at a level while `next_proc` picks others there `n` times in a row. In between
-- anything may happen but a change of the level's position, such as a boost makes.
pub data PassedOver (level j : ℕ) : ℕ → Kernel → Type 0 where
  begin : {k : Kernel} → IsPlaced k → PassedOver level j 0 k
  pass :
      {n s : ℕ} {k k' k'' : Kernel}
      → PassedOver level j n k
      → candidate k level j ≡ true
      → next_proc k level ≡ done (some s, k')
      → s ≢ j
      → IsPlaced k''
      → position k'' level ≡ position k' level
      → PassedOver level j (suc n) k''

PassedOver-IsPlaced : {level j n : ℕ} {k : Kernel} → PassedOver level j n k → IsPlaced k
PassedOver-IsPlaced (begin v) = v
PassedOver-IsPlaced (pass p w e ne v q) = v

PassedOver-bound :
    (level j : ℕ) {n : ℕ} {k : Kernel}
    → level ≤ 2
    → j < nproc
    → PassedOver level j n k
    → n + distance (position k level) j < nproc
PassedOver-bound level j h l (begin v) = omega arith
PassedOver-bound level j h l (pass {k = k} {k' = k'} {k'' = k''} p w e ne v q) = rw q (
    omega (
      arith,
      PassedOver-bound level j h l p,
      next_proc-fair k level (PassedOver-IsPlaced p) j h l w e ne,
    ))

-- A process that waits at a level from 0 to 2 is passed over at most 63 times in a row by
-- `next_proc` at that level, as long as the level's queue position is not reset.
pub next_proc-bounded_waiting :
    {level j n : ℕ} {k : Kernel} → level ≤ 2 → j < nproc → PassedOver level j n k → n ≤ 63
next_proc-bounded_waiting {level} {j} h l p = omega (arith, PassedOver-bound level j h l p)
