-- ===== src/Mlfq/Counter/Process.antt =====
-- The counter `moq_cnt` over `fork`, `exit` and `wait`.
use ele.Base.{
  count_at-update-out, zero, suc, count_at-drop, count_at-le, store, store_self, store_ne, ℕ, ◌≡◌,
  refl, true, false, Option, some, arith, ap, Bool-cases, inl, inr, ◌==◌, decrement,
  decrement_parts, same_pointer, done, Option-cases, ◌||◌, not, Bool,
}
use ele.Proc.Table.{Kernel, assign, proc_at, zeroed, nproc, zombie, Proc, same_state}
use ele.Proc.Create.{allocproc, fork}
use ele.Proc.Create.Slot.{allocproc-Claimed}
use ele.Proc.Sleep.{wakeup1}
use ele.Proc.Finish.{
  adopt_loop, channel_of, wait, wait_scan, Waited, returned, sleeps, reap, exit_begin, adopt,
  exit_end,
}
use ele.Mlfq.Counter.{
  wakeup1-Counted, Calls, stays, is_alive, Counted, assign-Counted, allocproc-Counted,
  sleep_on-Counted, Proc, adopt, same_state,
}

-- The state of a waiting process, whichever way `wait` leaves its pass.
abbrev pub waited_state : Waited → Kernel
waited_state (returned pid k calls) = k
waited_state (sleeps k) = k

-- The processes on their way out without `cur`, or with it.
abbrev pub with_leaving : Calls → ℕ → Bool → Calls
with_leaving g cur b = record g { leaving = store g.leaving cur b }

module _ (d : ℕ) (g : Calls) where
  pub fork-Counted :
      (k : Kernel) (cur kstack pgdir : ℕ) → Counted d g k → Counted d g (fork k cur kstack pgdir).1
  unfolding fork
  fork-Counted k cur kstack pgdir c =
      let c' = allocproc-Counted d g k kstack c in
      elim (allocproc-Claimed k kstack) [
        | inl (e, nothing) ↦ rw (ap (λ (r : Option ℕ × Kernel). r.0) e, fork) c'
        | inr (i, f, inr (z, e, q)) ↦ rw (e, fork) c'
        | inr (i, f, inl (ne, e, q)) ↦ elim (Bool-cases (pgdir == 0)) [
          | inl z ↦
              rw (e, fork, z)
                (assign-Counted d g (allocproc k kstack).1 i _ (λ x at h. ground arith) c')
          | inr z ↦
              rw (e, fork, z)
                (assign-Counted d g (allocproc k kstack).1 i _ (λ x at h. ground (arith, q.slot))
                  c')
        ]
      ]

  pub wait-Counted :
      (k : Kernel) (cur : ℕ)
      → is_alive (proc_at k cur) ≡ true
      → Counted d g k
      → Counted d g (waited_state (wait k cur))
  unfolding wait
  wait-Counted k cur alive c = elim (Option-cases (wait_scan cur 0 false k.table).1) [
    | inr (i, e) ↦ rw (e, wait) (assign-Counted d g k i reap (λ x at h. ground arith) c)
    | inl e ↦
        elim (Bool-cases
          (not (wait_scan cur 0 false k.table).0 || not ((proc_at k cur).killed == 0))) [
            | inl b ↦ rw (e, wait, b) c
            | inr b ↦ rw (e, wait, b) (sleep_on-Counted d g k cur _ alive c)
          ]
  ]

stays-leaving :
    (g : Calls) (cur j : ℕ) (x : Proc)
    → stays (with_leaving g cur true) j x ≡ true
    → stays g j x ≡ true
unfolding store
stays-leaving g cur j x h = ground (arith, h)

module _ (d : ℕ) (g : Calls) where
  -- `exit_begin` takes a process off the counter that is in the queue, and none else.
  pub exit_begin-Counted :
      {k' : Kernel} (k : Kernel) (cur : ℕ)
      → is_alive (proc_at k cur) ≡ true
      → g.leaving cur ≡ false
      → exit_begin k cur ≡ done k'
      → Counted d g k
      → Counted d (with_leaving g cur true) k'
  unfolding exit_begin
  exit_begin-Counted {k'} k cur alive fresh e c =
      elim (Bool-cases (same_pointer (some cur) k.initproc)) [
        | inl b ↦ absurd (cc (rw b at e))
        | inr b ↦ elim (Bool-cases ((proc_at k cur).level == 99)) [
          | inl l ↦
              let out : k' ≡ record k { moq_cnt = decrement k.moq_cnt } = ground arith in
              let less =
                count_at-drop (stays g) (stays (with_leaving g cur true)) k.table cur zeroed refl
                  (rw (l, alive, fresh) refl)
                  (λ x. rw (store_self g.leaving cur true) (ground arith))
                  (λ j x ne. rw (store_ne g.leaving cur true j ne) refl) in
              rw out (omega (arith, c, less, decrement_parts k.moq_cnt))
          | inr l ↦
              let out : k' ≡ k = ground arith in
              let less =
                count_at-le (stays g) (stays (with_leaving g cur true)) k.table
                  (stays-leaving g cur) in
              rw out (omega (arith, c, less))
        ]
      ]

  adopt-Counted : (cur i : ℕ) (k : Kernel) → Counted d g k → Counted d g (adopt cur i k)
  unfolding adopt
  adopt-Counted cur i k c = elim (Bool-cases (same_pointer (proc_at k i).parent (some cur))) [
    | inr b ↦ rw (b, adopt) c
    | inl b ↦
        let given : Kernel = assign k i (λ p. record p { parent = k.initproc }) in
        let first : Counted d g given = assign-Counted d g k i _ (λ x at q. q) c in
        elim (Bool-cases (same_state (proc_at given i).state zombie)) [
          | inr z ↦ rw (b, adopt, z) first
          | inl z ↦ rw (b, adopt, z) (wakeup1-Counted d g given (channel_of k.initproc) first)
        ]
  ]

  adopt_loop-Counted :
      (n cur i : ℕ) (k : Kernel) → Counted d g k → Counted d g (adopt_loop n cur i k)
  unfolding adopt_loop
  adopt_loop-Counted zero cur i k c = c
  adopt_loop-Counted (suc n) cur i k c =
      adopt_loop-Counted n cur (suc i) (adopt cur i k) (adopt-Counted cur i k c)

  -- After `exit_end` the process is not on its way out any more, and not in the queue.
  pub exit_end-Counted :
      (k : Kernel) (cur : ℕ) → Counted d g k → Counted d (with_leaving g cur false) (exit_end k cur)
  unfolding exit_end assign
  exit_end-Counted k cur c =
      let w = adopt_loop nproc cur 0 (wakeup1 k (channel_of (proc_at k cur).parent)) in
      let c' : Counted d g w =
        adopt_loop-Counted nproc cur 0 _
          (wakeup1-Counted d g k (channel_of (proc_at k cur).parent) c) in
      let less =
        count_at-update-out (stays g) (stays (with_leaving g cur false)) w.table cur
          (λ p. record p { state = zombie }) (λ x. ground arith)
          (λ j x ne h. (rw (store_ne g.leaving cur false j ne) at h)) in
      omega (arith, c', less)
