-- ===== src/Mlfq/Counter/Dispatch.antt =====
-- The counter `moq_cnt` over a round of `scheduler`.
use ele.Base.{
  ℕ, ◌+◌, ◌%◌, Outcome, ◌≡◌, refl, true, Option, none, some, arith, Bool-cases, inl, inr, ◌==◌, leb,
  done, Option-cases, ◌||◌, subst, >>=-eq-done,
}
use ele.Proc.Table.{Kernel, assign, proc_at, nproc, running, get_or_of_get_elem?}
use ele.Mlfq.Queues.{
  candidate, next_proc, next_round_robin, next_by_priority, ring, higher, at_position,
}
use ele.Mlfq.RoundRobin.{round_robin-cases}
use ele.Mlfq.Priority.{select-Chosen, higher-IsStrict, next_proc-Earliest}
use ele.Mlfq.Calls.{unmonopolize}
use ele.Mlfq.Scheduler.{scheduler, mlfq_round, monopoly_round, dispatch, switchuvm, first_level}
use ele.Mlfq.Counter.{Calls, Counted, assign-Counted}

-- What `next_proc` returns: a process that waits at the level, and a state in which at most a queue
-- position has changed.
pub record Offers (k : Kernel) (level : ℕ) (r : Option ℕ) (k' : Kernel) : Type 0 where
  pub positions : k' ≡ record k { queue_position = k'.queue_position }
  pub waiting : (s : ℕ) → r ≡ some s → candidate k level s ≡ true

Offers-none : (k : Kernel) (level : ℕ) → Offers k level none k
Offers-none k level = record { positions = refl; waiting = λ s e. cc }

round-Offers :
    (k : Kernel) (level : ℕ)
    → Offers k level (next_round_robin k level).0 (next_round_robin k level).1
unfolding next_round_robin
round-Offers k level = elim (round_robin-cases k level nproc 0 nproc (omega arith)) [
  | inl (e, nothing) ↦ rw (e, next_round_robin) (Offers-none k level)
  | inr (m, e, f) ↦
      rw (e, next_round_robin)
        (record {
          positions = refl;
          waiting = λ s q. subst (λ o. candidate k level o ≡ true) (ground arith) f.waits;
        })
]

-- The same, from an equation for the result.
Offers-of :
    {r : Option ℕ} {k' : Kernel} (k : Kernel) (level s p : ℕ)
    → candidate k level s ≡ true
    → ◌≡◌ {A = Outcome (Option ℕ × Kernel)} (done (some s, at_position k level p)) (done (r, k'))
    → Offers k level r k'
Offers-of k level s p w h = record {
  positions = ground arith;
  waiting = λ t e. subst (λ o. candidate k level o ≡ true) {x = s} {y = t} (ground arith) w;
}

Offers-same :
    {r : Option ℕ} {k' : Kernel} (k : Kernel) (level s : ℕ)
    → candidate k level s ≡ true
    → ◌≡◌ {A = Outcome (Option ℕ × Kernel)} (done (some s, k)) (done (r, k'))
    → Offers k level r k'
Offers-same k level s w h = record {
  positions = ground arith;
  waiting = λ t e. subst (λ o. candidate k level o ≡ true) {x = s} {y = t} (ground arith) w;
}

monopoly-Offers :
    {r : Option ℕ} {k' : Kernel} (k : Kernel) → next_proc k 99 ≡ done (r, k') → Offers k 99 r k'
monopoly-Offers {r} {k'} k h = elim (next_proc-Earliest k) [
  | inl (e, nothing) ↦
      let q : (r ≡ none) × (k' ≡ k) = ground arith in rw (q.0, q.1) (Offers-none k 99)
  | inr (s, e, f) ↦ Offers-same k 99 s f.waits (rw e at h)
]

priority-Offers :
    {r : Option ℕ} {k' : Kernel} (k : Kernel) → next_by_priority k ≡ done (r, k') → Offers k 3 r k'
unfolding next_by_priority
priority-Offers {r} {k'} k h =
    elim (select-Chosen (ring k 3) (candidate k 3) (higher k) (higher-IsStrict k) nproc 0 nproc none
      (omega arith) (inl (refl, λ j l. absurd (omega arith)))) [
        | inl (e, nothing) ↦ absurd (cc (rw (e, next_by_priority) at h))
        | inr (m, e, b) ↦
            Offers-of k 3 (ring k 3 m) ((ring k 3 m + 1) % nproc) b.waits
              (rw (e, next_by_priority) at h)
      ]

pub next_proc-Offers :
    {r : Option ℕ} {k' : Kernel} (k : Kernel) (level : ℕ)
    → next_proc k level ≡ done (r, k')
    → Offers k level r k'
unfolding next_proc
next_proc-Offers {r} {k'} k level h = elim (Bool-cases (leb level 2)) [
  | inl b ↦
      let q : done (next_round_robin k level) ≡ done (r, k') = rw (b, next_proc) at h in
      let e : (r ≡ (next_round_robin k level).0) × (k' ≡ (next_round_robin k level).1) =
        ground arith in
      rw (e.0, e.1) (round-Offers k level)
  | inr b ↦ elim (Bool-cases (level == 3)) [
    | inl c ↦
        let three : level ≡ 3 = ground arith in
        rw three (priority-Offers k (rw (b, next_proc, c) at h))
    | inr c ↦ elim (Bool-cases (level == 99)) [
      | inr f ↦ let e : (r ≡ none) × (k' ≡ k) = ground arith in rw (e.0, e.1) (Offers-none k level)
      | inl f ↦ let n : level ≡ 99 = ground arith in rw n (monopoly-Offers k (rw n at h))
    ]
  ]
]

module _ (d : ℕ) (g : Calls) where
  dispatch-Counted :
      {k' : Kernel} (k : Kernel) (r : Option ℕ) (level : ℕ)
      → ((s : ℕ) → r ≡ some s → candidate k level s ≡ true)
      → dispatch k r ≡ done k'
      → Counted d g k
      → Counted d g k'
  unfolding dispatch switchuvm
  dispatch-Counted {k'} k none level w e c = cc
  dispatch-Counted {k'} k (some s) level w e c =
      elim (Bool-cases ((proc_at k s).kstack == 0 || (proc_at k s).pgdir == 0)) [
        | inl b ↦ absurd (cc (rw b at e))
        | inr b ↦
            let out : k'
                ≡ assign (record k { current = some s }) s (λ p. record p { state = running }) =
              ground arith in
            rw out (
              assign-Counted d g (record k { current = some s }) s _
                (λ x at q. ground (arith, w s refl, get_or_of_get_elem? k.table s at)) c)
      ]

  Offers-Counted :
      (k : Kernel) (level : ℕ) {r : Option ℕ} {k' : Kernel}
      → Offers k level r k'
      → Counted d g k
      → Counted d g k' × ((s : ℕ) → r ≡ some s → candidate k' level s ≡ true)
  Offers-Counted k level o c = (rw o.positions c, λ s e. rw o.positions (o.waiting s e))

  monopoly_round-Counted :
      {k' : Kernel} (k : Kernel) (r : Option ℕ)
      → ((s : ℕ) → r ≡ some s → candidate k 99 s ≡ true)
      → monopoly_round k r ≡ done k'
      → Counted d g k
      → Counted d g k'
  unfolding monopoly_round unmonopolize
  monopoly_round-Counted k none w e c = ground arith
  monopoly_round-Counted k (some s) w e c = dispatch-Counted k (some s) 99 w e c

  pub scheduler-Counted :
      {k' : Kernel} (k : Kernel) → scheduler k ≡ done k' → Counted d g k → Counted d g k'
  unfolding scheduler mlfq_round
  scheduler-Counted {k'} k e c = elim (Bool-cases (k.is_monopolized == 1)) [
    | inl b ↦
        let ((r, m), p, q) = >>=-eq-done (next_proc k 99) _ (rw b at e) in
        let (c', w) = Offers-Counted k 99 (next_proc-Offers k 99 p) c in
        monopoly_round-Counted m r w q c'
    | inr b ↦ elim (Option-cases (first_level k 4 0)) [
      | inl n ↦ ground arith
      | inr (level, n) ↦
          let ((r, m), p, q) = >>=-eq-done (next_proc k level) _ (rw (b, n) at e) in
          let (c', w) = Offers-Counted k level (next_proc-Offers k level p) c in
          dispatch-Counted m r level w q c'
    ]
  ]
