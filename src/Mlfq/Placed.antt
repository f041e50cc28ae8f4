-- ===== src/Mlfq/Placed.antt =====
-- The queue positions of proc.c: what it is to leave them alone, and to keep them in the table.
pub mod Process
pub mod Dispatch
pub mod Clock
pub mod Reached
use ele.Mlfq.RoundRobin.{IsPlaced}
use ele.Mlfq.Counter.Clock.{tail_state}
use ele.Mlfq.Scheduler.{dispatch, monopoly_round, scheduler, mlfq_round, switchuvm, first_level}
use ele.Mlfq.Queues.{
  next_by_priority, next_proc, next_round_robin, select, at_position, round_robin, ring, candidate,
  higher,
}
use ele.Mlfq.Trap.{
  charge, demote, timer_tick, trap_tail, Tail, boost_if_due, trap_end, timer_trap, must_exit,
  leaves_l0, or_yield, from_l0, leaves_l12, from_l12, renews_l3, from_l3,
}
use ele.Mlfq.Counter.Process.{waited_state}
use ele.Proc.Create.{fork, allocproc}
use ele.Mlfq.Calls.{setmonopoly, setpriority, priority_boosting, unmonopolize, monopolize}
use ele.Proc.Finish.{exit, wait, adopt_loop, adopt, wait_scan}
use ele.Proc.Sleep.{kill, sleep_on, sleep_return, wakeup, yield, wakeup1}
use ele.Proc.Table.{Kernel, assign, Channel, Effect, nproc, Proc, proc_at}
use ele.Base.{
  >>=-eq-done, Bool, Bool-cases, List, Option, Option-cases, Outcome, [], ap, ap₂, arith, dec_lt,
  done, drop, false, get_elem?, get_or, if◌then◌else◌, inl, inr, leb, length, length-append,
  length-set, ltb, map, negsuc, none, not, panic, pos, refl, replicate, same_pointer, set, some,
  subst, suc, sym, take, true, undefined, zero, ℕ, ℕ_discrete, ℤ, ◌%◌, ◌&&◌, ◌*◌, ◌++◌, ◌+◌, ◌-◌,
  ◌/◌, ◌<◌, ◌==◌, ◌>>=◌, ◌^◌, ◌||◌, ◌↔◌, ◌∙◌, ◌∷◌, ◌≡◌, ◌≢◌, ◌≤◌, ◌⊎◌,
}

-- A routine that leaves the queue positions alone.
abbrev pub SameQueues : Kernel → Kernel → Type 0
SameQueues k k' = k'.queue_position ≡ k.queue_position

-- Positions within the table.
abbrev pub Within : List ℕ → Type 0
Within q = (length q ≡ 4) × ((level : ℕ) → get_or q level 0 < nproc)

get_or-set-lt :
    (q : List ℕ) (level p i n : ℕ) → p < n → get_or q i 0 < n → get_or (set q level p) i 0 < n
get_or-set-lt [] level p i n h w = w
get_or-set-lt (x ∷ xs) zero p zero n h w = h
get_or-set-lt (x ∷ xs) zero p (suc i) n h w = w
get_or-set-lt (x ∷ xs) (suc level) p zero n h w = w
get_or-set-lt (x ∷ xs) (suc level) p (suc i) n h w = get_or-set-lt xs level p i n h w

pub Within-set : (q : List ℕ) (level p : ℕ) → p < nproc → Within q → Within (set q level p)
Within-set q level p h w =
    (length-set q level p ∙ w.0, λ i. get_or-set-lt q level p i nproc h (w.1 i))
