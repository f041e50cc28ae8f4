-- ===== src/Mlfq/Counter/Clock.antt =====
-- The counter `moq_cnt` over the scheduling part of `trap`.
use ele.Base.{
  ℕ, ◌+◌, ◌%◌, ◌≡◌, Bool, true, false, Option, none, some, arith, Bool-cases, inl, inr, ◌==◌, leb,
  if◌then◌else◌, Option-cases, ◌&&◌, ◌^◌, ◌∙◌, get_or-update_self,
}
use ele.Proc.Table.{Proc, Kernel, assign, proc_at, zeroed, same_state, running, get_or_of_get_elem?}
use ele.Proc.Sleep.{wakeup, yield}
use ele.Mlfq.Trap.{
  running_proc, charge, timer_tick, demote, Tail, yields, exits, returns, trap_end, trap_tail,
  timer_trap, boost_if_due, must_exit, leaves_l0, from_l0, leaves_l12, from_l12, renews_l3, from_l3,
  or_yield,
}
use ele.Mlfq.Counter.{
  Calls, in_monopoly, is_alive, Counted, assign-Counted, wakeup1-Counted, yield-Counted,
  boost-Counted,
}

-- The state of a process in the middle or at the end of `trap`.
abbrev pub tail_state : Tail → Kernel
tail_state (yields resume k) = k
tail_state (exits k) = k
tail_state (returns k) = k

-- Where the running process keeps its place in the queue.
abbrev Spares : (Proc → Bool) → (Proc → Proc) → Type 0
Spares test change =
    (x : Proc)
    → test x ≡ true
    → (in_monopoly (change x) ≡ true → in_monopoly x ≡ true) × (is_alive (change x) ≡ is_alive x)

running_proc-alive :
    (k : Kernel) {cur : ℕ} → running_proc k ≡ some cur → is_alive (proc_at k cur) ≡ true
unfolding running_proc
running_proc-alive k {cur} e = elim (Option-cases k.current) [
  | inl n ↦ absurd (cc (rw n at e))
  | inr (i, n) ↦ elim (Bool-cases (same_state (proc_at k i).state running)) [
    | inr b ↦ ground arith
    | inl b ↦ let same : i ≡ cur = ground arith in rw (← same) (ground arith)
  ]
]

-- An assignment to the running process that leaves its state leaves it alive.
assign-alive :
    (k : Kernel) (i : ℕ) (f : Proc → Proc)
    → is_alive (f (proc_at k i)) ≡ true
    → is_alive (proc_at k i) ≡ true
    → is_alive (proc_at (assign k i f) i) ≡ true
unfolding assign
assign-alive k i f h g = ground (arith, get_or-update_self k.table i f zeroed)

module _ (d : ℕ) (g : Calls) where
  charge-Counted : (k : Kernel) (r : Option ℕ) → Counted d g k → Counted d g (charge k r)
  unfolding charge
  charge-Counted k none c = c
  charge-Counted k (some cur) c = assign-Counted d g k cur _ (λ x at q. q) c

  timer_tick-Counted : (k : Kernel) → Counted d g k → Counted d g (timer_tick k)
  unfolding timer_tick wakeup
  timer_tick-Counted k c =
      wakeup1-Counted d g _ _ (charge-Counted (record k { ticks = (k.ticks + 1) % 2 ^ 32 }) _ c)

  demote-Counted :
      (test : Proc → Bool) (change : Proc → Proc) (k : Kernel) {k' : Kernel}
      → Spares test change
      → demote test change k ≡ some k'
      → Counted d g k
      → Counted d g k'
  unfolding demote
  demote-Counted test change k {k'} spares e c = elim (Option-cases (running_proc k)) [
    | inl n ↦ absurd (cc (rw (n, demote) at e))
    | inr (cur, n) ↦ elim (Bool-cases (test (proc_at k cur))) [
      | inr b ↦ absurd (cc (rw (n, demote, b) at e))
      | inl b ↦
          let out : k' ≡ yield (assign k cur change) cur = ground arith in
          let alive = running_proc-alive k n in
          let kept = spares (proc_at k cur) b in
          rw out (
            yield-Counted d g (assign k cur change) cur
              (assign-alive k cur change (kept.1 ∙ alive) alive)
              (assign-Counted d g k cur change
                (λ x at q.
                  let same : proc_at k cur ≡ x = get_or_of_get_elem? k.table cur at in
                  (rw same at kept.0) q)
                c))
    ]
  ]

  boost_if_due-Counted : (k : Kernel) → Counted d g k → Counted d g (boost_if_due k)
  unfolding boost_if_due
  boost_if_due-Counted k c = elim (Bool-cases (k.ticks % 100 == 0)) [
    | inl b ↦ rw b (boost-Counted d g k c)
    | inr b ↦ rw b c
  ]

  trap_end-Counted :
      (k : Kernel) (user_mode : Bool)
      → Counted d g k
      → Counted d g (tail_state (trap_end k user_mode))
  unfolding trap_end
  trap_end-Counted k user_mode c = elim (Bool-cases (must_exit (boost_if_due k) user_mode)) [
    | inl b ↦ rw (b, trap_end) (boost_if_due-Counted k c)
    | inr b ↦ rw (b, trap_end) (boost_if_due-Counted k c)
  ]

  or_yield-Counted :
      (test : Proc → Bool) (change : Proc → Proc) (k : Kernel) (run : Bool) (resume : ℕ)
      (rest : Tail)
      → Spares test change
      → Counted d g k
      → Counted d g (tail_state rest)
      → Counted d g (tail_state (if run then or_yield resume (demote test change k) rest else rest))
  or_yield-Counted test change k false resume rest spares c h = h
  or_yield-Counted test change k true resume rest spares c h =
      elim (Option-cases (demote test change k)) [
        | inl n ↦ rw n h
        | inr (k', n) ↦ rw n (demote-Counted test change k spares n c)
      ]

  pub trap_tail-Counted :
      (resume : ℕ) (k : Kernel) (user_mode : Bool)
      → Counted d g k
      → Counted d g (tail_state (trap_tail resume k user_mode))
  unfolding trap_tail
  trap_tail-Counted resume k user_mode c =
      elim (Bool-cases (resume == 0 && must_exit k user_mode)) [
        | inl b ↦ rw (b, trap_tail) c
        | inr b ↦
            rw (b, trap_tail)
              (or_yield-Counted leaves_l0 from_l0 k (leb resume 1) 2 _
                (λ x t. (ground arith, ground arith)) c
                (or_yield-Counted leaves_l12 from_l12 k (leb resume 2) 3 _
                  (λ x t. (ground arith, ground arith)) c
                  (or_yield-Counted renews_l3 from_l3 k (leb resume 3) 4 _
                    (λ x t. (ground arith, ground arith)) c (trap_end-Counted k user_mode c))))
      ]

  pub timer_trap-Counted :
      (k : Kernel) (user_mode : Bool)
      → Counted d g k
      → Counted d g (tail_state (timer_trap k user_mode))
  unfolding timer_trap
  timer_trap-Counted k user_mode c =
      trap_tail-Counted 0 (timer_tick k) user_mode (timer_tick-Counted k c)
