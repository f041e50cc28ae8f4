-- ===== src/Mlfq/Leave.antt =====
-- When the scheduler leaves the monopoly mode by itself.
use ele.Base.{
  refl, count_at_pos, count_at-update-le, ℕ, ◌≡◌, true, Option, none, some, pos, arith, inl, inr,
  done, ◌==◌, ◌⊎◌, eq_ℤ, Bool-cases, >>=-eq-done, ◌∙◌, ap, subst, pos_part, neg_part, ◌+◌,
}
use ele.Proc.Table.{zeroed, Kernel, proc_at, assign, get_or_of_get_elem?}
use ele.Mlfq.Queues.{next_proc}
use ele.Mlfq.Calls.{enter_queue, enter_monopoly}
use ele.Mlfq.Scheduler.{scheduler, monopoly_round, dispatch, switchuvm}
use ele.Mlfq.Counter.{stays, Counted, in_monopoly, monopolists}
use ele.Mlfq.Counter.Dispatch.{next_proc-Offers}
use ele.Mlfq.Steps.{System, Reach, Reach-Counted}

dispatch-mode :
    {k' : Kernel} (k : Kernel) (r : Option ℕ)
    → dispatch k r ≡ done k'
    → k'.is_monopolized ≡ k.is_monopolized
unfolding dispatch switchuvm assign
dispatch-mode k none e = cc
dispatch-mode k (some s) e = ground arith

monopoly_round-mode :
    {k' : Kernel} (k : Kernel) (r : Option ℕ)
    → monopoly_round k r ≡ done k'
    → (k'.is_monopolized ≡ k.is_monopolized) ⊎ (k.moq_cnt ≡ pos 0)
unfolding monopoly_round
monopoly_round-mode k (some s) e = inl (dispatch-mode k (some s) e)
monopoly_round-mode k none e = elim (Bool-cases (eq_ℤ k.moq_cnt (pos 0))) [
  | inl b ↦ inr (ground arith)
  | inr b ↦ inl (ground arith)
]

-- A round leaves the monopoly mode only at the counter 0.
scheduler-mode :
    (k : Kernel) {k' : Kernel}
    → k.is_monopolized ≡ 1
    → scheduler k ≡ done k'
    → (k'.is_monopolized ≡ 1) ⊎ (k.moq_cnt ≡ pos 0)
unfolding scheduler
scheduler-mode k on e =
    let b : (k.is_monopolized == 1) ≡ true = ground arith in
    let ((r, m), p, q) = >>=-eq-done (next_proc k 99) _ (rw b at e) in
    let o = next_proc-Offers k 99 p in
    elim (monopoly_round-mode m r q) [
      | inl h ↦ inl (h ∙ rw o.positions on)
      | inr h ↦ inr (rw o.positions at h)
    ]

-- In every state that is reached from one where `moq_cnt`, with what the calls of `setmonopoly` under
-- way have yet to add to it, is not below the number of living processes in the monopoly queue that are
-- not in `exit`: a round of `scheduler` in monopoly mode, while no call of `setmonopoly` has yet to
-- count its process, stays in that mode, or every living process of the queue is in `exit`.
pub scheduler-leaves_empty :
    {s : System} {k' : Kernel} (t : System)
    → Counted 0 s.calls s.kernel
    → Reach s t
    → t.calls.entering ≡ 0
    → t.kernel.is_monopolized ≡ 1
    → scheduler t.kernel ≡ done k'
    → (k'.is_monopolized ≡ 1)
      ⊎ ((i : ℕ) → in_monopoly (proc_at t.kernel i) ≡ true → t.calls.leaving i ≡ true)
scheduler-leaves_empty t c r z on e = elim (scheduler-mode t.kernel on e) [
  | inl h ↦ inl h
  | inr h ↦
      let c' = Reach-Counted 0 c r in
      let none_stays : monopolists t.calls t.kernel ≡ 0 =
        omega (arith, ap pos_part h, ap neg_part h, c', z) in
      inr (λ i q. elim (Bool-cases (t.calls.leaving i)) [
        | inl b ↦ b
        | inr b ↦ absurd (
            omega (
              arith,
              none_stays,
              count_at_pos (stays t.calls) t.kernel.table i zeroed refl (rw (q, b) refl),
            ))
      ])
]

-- After the assignments of `setmonopoly` to the process `i`, with `moq_cnt++` to come.
abbrev pub entering_queue : System → (i : ℕ) → System
entering_queue s i = record {
  kernel = enter_queue s.kernel i;
  calls = record (s.calls) { entering = s.calls.entering + 1 };
}

-- A process of the queue that enters it again is counted twice.
enter_queue-again :
    (s : System) (i : ℕ)
    → Counted 0 s.calls s.kernel
    → in_monopoly (proc_at s.kernel i) ≡ true
    → Counted 1 (entering_queue s i).calls (entering_queue s i).kernel
unfolding assign enter_queue
enter_queue-again s i c already =
    let k = s.kernel in
    omega (
      arith,
      c,
      count_at-update-le (stays s.calls) k.table i (enter_monopoly k.moq_priority) (λ x at q.
          ground (
            arith,
            q,
            subst (λ y. in_monopoly y ≡ true) (get_or_of_get_elem? k.table i at) already,
          )),
    )

-- If `moq_cnt`, with what the calls of `setmonopoly` under way have yet to add to it, is not below the
-- number of living processes in the monopoly queue that are not in `exit`, and `setmonopoly` makes its
-- assignments to a living process that is in the queue already, then from then on, whatever the
-- processes and the clock do, no round of `scheduler` leaves the monopoly mode again while no call of
-- `setmonopoly` has yet to count its process, not even when the queue is empty.
pub setmonopoly-again_stuck :
    (s t : System) {m' : Kernel} (i : ℕ)
    → Counted 0 s.calls s.kernel
    → in_monopoly (proc_at s.kernel i) ≡ true
    → Reach (entering_queue s i) t
    → t.calls.entering ≡ 0
    → t.kernel.is_monopolized ≡ 1
    → scheduler t.kernel ≡ done m'
    → m'.is_monopolized ≡ 1
setmonopoly-again_stuck s t i c already r z on run = elim (scheduler-mode t.kernel on run) [
  | inl h ↦ h
  | inr h ↦
      let c' = Reach-Counted 1 (enter_queue-again s i c already) r in
      absurd (omega (arith, ap pos_part h, ap neg_part h, c', z))
]
