-- ===== src/Mlfq/Placed/Dispatch.antt =====
-- The queue positions under a round of `scheduler` (proc.c).
use ele.Mlfq.Scheduler.{dispatch, monopoly_round, scheduler, mlfq_round, switchuvm, first_level}
use ele.Mlfq.Queues.{
  next_by_priority, next_proc, next_round_robin, select, at_position, round_robin, ring, candidate,
  higher,
}
use ele.Mlfq.Calls.{unmonopolize}
use ele.Proc.Table.{Kernel, assign, nproc}
use ele.Mlfq.Placed.{SameQueues, Within, Within-set}
use ele.Base.{
  >>=-eq-done, Bool-cases, Option, Option-cases, Outcome, arith, done, inl, inr, leb, none, refl,
  some, subst, sym, ℕ, ◌%◌, ◌+◌, ◌==◌, ◌≡◌, ◌⊎◌,
}

-- What `next_proc` does to the positions: at most it moves one of them within the table.
abbrev Moved : Kernel → Kernel → Type 0
Moved k k' = SameQueues k k' ⊎ ((level p : ℕ) × (k' ≡ at_position k level (p % nproc)))

Moved-Within : {k k' : Kernel} → Moved k k' → Within k.queue_position → Within k'.queue_position
Moved-Within (inl same) w = subst Within (sym same) w
Moved-Within {k} (inr (level, p, e)) w =
    subst (λ x. Within x.queue_position) (sym e)
      (Within-set k.queue_position level (p % nproc) (omega arith) w)

done-pair :
    {r s : Option ℕ} {a b : Kernel}
    → ◌≡◌ {A = Outcome (Option ℕ × Kernel)} (done (r, a)) (done (s, b))
    → a ≡ b
done-pair e = ground arith

round_robin-Moved : (k : Kernel) (level : ℕ) → Moved k (next_round_robin k level).1
unfolding next_round_robin
round_robin-Moved k level = elim (Option-cases (round_robin k level nproc 0)) [
  | inl e ↦ inl (rw (e, next_round_robin) refl)
  | inr (s, e) ↦ inr (level, s + 1, rw (e, next_round_robin) refl)
]

next_by_priority-Moved :
    (k : Kernel) {r : Option ℕ} {k' : Kernel} → next_by_priority k ≡ done (r, k') → Moved k k'
unfolding next_by_priority
next_by_priority-Moved k h =
    elim (Option-cases (select (ring k 3) (candidate k 3) (higher k) nproc 0 none)) [
      | inl e ↦ absurd (cc (rw (e, next_by_priority) at h))
      | inr (s, e) ↦ inr (3, s + 1, sym (done-pair (rw (e, next_by_priority) at h)))
    ]

next_proc-Moved :
    (k : Kernel) (level : ℕ) {r : Option ℕ} {k' : Kernel}
    → next_proc k level ≡ done (r, k')
    → Moved k k'
unfolding next_proc
next_proc-Moved k level {r} {k'} h = elim (Bool-cases (leb level 2)) [
  | inl b ↦
      let q : done (next_round_robin k level) ≡ done (r, k') = rw (b, next_proc) at h in
      subst (Moved k) (done-pair q) (round_robin-Moved k level)
  | inr b ↦ elim (Bool-cases (level == 3)) [
    | inl c ↦ next_by_priority-Moved k (rw (b, next_proc, c) at h)
    | inr c ↦ inl (ground arith)
  ]
]

dispatch-SameQueues :
    (k : Kernel) (r : Option ℕ) {k' : Kernel} → dispatch k r ≡ done k' → SameQueues k k'
unfolding dispatch switchuvm assign
dispatch-SameQueues k none e = cc
dispatch-SameQueues k (some s) e = ground arith

monopoly_round-SameQueues :
    (k : Kernel) (r : Option ℕ) {k' : Kernel} → monopoly_round k r ≡ done k' → SameQueues k k'
unfolding monopoly_round unmonopolize
monopoly_round-SameQueues k none e = ground arith
monopoly_round-SameQueues k (some s) e = dispatch-SameQueues k (some s) e

done-same : {a b : Kernel} → ◌≡◌ {A = Outcome Kernel} (done a) (done b) → a ≡ b
done-same e = ground arith

pub scheduler-Within :
    (k : Kernel) {k' : Kernel}
    → scheduler k ≡ done k'
    → Within k.queue_position
    → Within k'.queue_position
unfolding scheduler mlfq_round
scheduler-Within k e w = elim (Bool-cases (k.is_monopolized == 1)) [
  | inl b ↦
      let ((r, m), p, q) = >>=-eq-done (next_proc k 99) _ (rw b at e) in
      subst Within (sym (monopoly_round-SameQueues m r q)) (Moved-Within (next_proc-Moved k 99 p) w)
  | inr b ↦ elim (Option-cases (first_level k 4 0)) [
    | inl n ↦
        let same : k ≡ _ = done-same (rw (b, n) at e) in
        subst (λ (x : Kernel). Within x.queue_position) same w
    | inr (level, n) ↦
        let ((r, m), p, q) = >>=-eq-done (next_proc k level) _ (rw (b, n) at e) in
        subst Within (sym (dispatch-SameQueues m r q)) (Moved-Within (next_proc-Moved k level p) w)
  ]
]
