-- ===== src/Mlfq/Placed/Clock.antt =====
-- The queue positions under the clock: the scheduling part of `trap` (trap.c), with the boost.
use ele.Mlfq.Counter.Clock.{tail_state}
use ele.Mlfq.Trap.{
  charge, demote, timer_tick, trap_tail, Tail, boost_if_due, trap_end, must_exit, leaves_l0,
  or_yield, from_l0, leaves_l12, from_l12, renews_l3, from_l3,
}
use ele.Mlfq.Calls.{priority_boosting}
use ele.Proc.Sleep.{wakeup, yield, wakeup1}
use ele.Proc.Table.{Kernel, assign, Proc}
use ele.Mlfq.Placed.{SameQueues, Within, Within-set}
use ele.Base.{
  Bool, Bool-cases, Option, Option-cases, arith, false, if◌then◌else◌, inl, inr, leb, none, refl,
  some, subst, sym, true, ℕ, ◌%◌, ◌&&◌, ◌==◌, ◌≡◌,
}

charge-SameQueues : (k : Kernel) (r : Option ℕ) → SameQueues k (charge k r)
unfolding charge assign
charge-SameQueues k none = refl
charge-SameQueues k (some cur) = refl

pub timer_tick-SameQueues : (k : Kernel) → SameQueues k (timer_tick k)
unfolding timer_tick wakeup wakeup1
timer_tick-SameQueues k = charge-SameQueues _ _

demote-SameQueues :
    (test : Proc → Bool) (change : Proc → Proc) (k : Kernel) {k' : Kernel}
    → demote test change k ≡ some k'
    → SameQueues k k'
unfolding demote yield assign
demote-SameQueues test change k e = ground arith

boost-Within : (k : Kernel) → Within k.queue_position → Within (priority_boosting k).queue_position
unfolding priority_boosting
boost-Within k w = Within-set _ 3 0 (omega arith) (
    Within-set _ 2 0 (omega arith)
      (Within-set _ 1 0 (omega arith) (Within-set _ 0 0 (omega arith) w)))

boost_if_due-Within :
    (k : Kernel) → Within k.queue_position → Within (boost_if_due k).queue_position
unfolding boost_if_due
boost_if_due-Within k w = elim (Bool-cases (k.ticks % 100 == 0)) [
  | inl b ↦ rw b (boost-Within k w)
  | inr b ↦ rw b w
]

trap_end-Within :
    (k : Kernel) (user_mode : Bool)
    → Within k.queue_position
    → Within (tail_state (trap_end k user_mode)).queue_position
unfolding trap_end
trap_end-Within k user_mode w = elim (Bool-cases (must_exit (boost_if_due k) user_mode)) [
  | inl b ↦ rw (b, trap_end) (boost_if_due-Within k w)
  | inr b ↦ rw (b, trap_end) (boost_if_due-Within k w)
]

or_yield-Within :
    (test : Proc → Bool) (change : Proc → Proc) (k : Kernel) (run : Bool) (resume : ℕ) (rest : Tail)
    → Within k.queue_position
    → Within (tail_state rest).queue_position
    → Within
        (tail_state
          (if run then or_yield resume (demote test change k) rest else rest)).queue_position
or_yield-Within test change k false resume rest w h = h
or_yield-Within test change k true resume rest w h = elim (Option-cases (demote test change k)) [
  | inl n ↦ rw n h
  | inr (k', n) ↦ rw n (subst Within (sym (demote-SameQueues test change k n)) w)
]

pub trap_tail-Within :
    (resume : ℕ) (k : Kernel) (user_mode : Bool)
    → Within k.queue_position
    → Within (tail_state (trap_tail resume k user_mode)).queue_position
unfolding trap_tail
trap_tail-Within resume k user_mode w = elim (Bool-cases (resume == 0 && must_exit k user_mode)) [
  | inl b ↦ rw (b, trap_tail) w
  | inr b ↦
      rw (b, trap_tail)
        (or_yield-Within leaves_l0 from_l0 k (leb resume 1) 2 _ w (
          or_yield-Within leaves_l12 from_l12 k (leb resume 2) 3 _ w (
            or_yield-Within renews_l3 from_l3 k (leb resume 3) 4 _ w
              (trap_end-Within k user_mode w))))
]
