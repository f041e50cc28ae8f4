-- ===== src/Mlfq/Tests.antt =====
-- The scheduler on concrete tables, and its theorems at them.
use ele.Mlfq.Demotion.{Replaced, timer_trap-Replaced}
use ele.Mlfq.Trap.{timer_trap, yields}
use ele.Mlfq.Counter.Clock.{tail_state}
use ele.Mlfq.Placed.Reached.{Reach-IsPlaced}
use ele.Base.{
  count_at, false, true, [], arith, done, find_from, find_index, get_or, pos, refl, some, suc,
  update, zero, ℕ, ◌<◌, ◌∷◌, ◌≡◌, ◌≤◌, ◌⊎◌, get_elem?,
}
use ele.Mlfq.Calls.{enter_queue, count_entry, moq_password, setmonopoly, unmonopolize}
use ele.Mlfq.Counter.{Counted, in_monopoly, Calls}
use ele.Mlfq.Leave.{scheduler-leaves_empty, setmonopoly-again_stuck}
use ele.Mlfq.Priority.{NextHighest, next_proc-Highest}
use ele.Mlfq.Queues.{
  at_position, can_mlfq, next_by_priority, next_monopoly, next_proc, next_round_robin, round_robin,
  select,
}
use ele.Mlfq.RoundRobin.{
  IsPlaced, NextNearest, PassedOver, begin, next_proc-Nearest, next_proc-bounded_waiting, pass,
}
use ele.Mlfq.Rounds.{MlfqRound, MonopolyRound, scheduler-mlfq, scheduler-monopoly, switched_to}
use ele.Mlfq.Samples.{
  busy, busy-IsReady, emptied, exclusive, exclusive-IsReady, kernel_of-IsPlaced, low, kernel_of,
  table_of, user_proc,
}
use ele.Mlfq.Scheduler.{dispatch, first_level, mlfq_round, monopoly_round, scheduler, switchuvm}
use ele.Mlfq.Steps.{System, ticks, here, kills, next, counts_entry}
use ele.Proc.Sleep.{find_with_pid, kill}
use ele.Proc.Table.{Kernel, assign, nproc, proc_at, zombie, runnable, Proc, sleeping, running}

-- Level 1 is searched from index 2, so pid 3 goes before pid 2.
scheduler-busy : scheduler busy ≡ done (switched_to (at_position busy 1 3) 2)
unfolding scheduler first_level can_mlfq find_index find_from mlfq_round next_proc next_round_robin
    round_robin dispatch switchuvm
scheduler-busy = refl

next_proc-low : next_proc low 3 ≡ done (some 2, at_position low 3 3)
unfolding next_proc next_by_priority select
next_proc-low = refl

next_proc-Nearest_example : NextNearest busy 1
next_proc-Nearest_example = next_proc-Nearest busy 1 (kernel_of-IsPlaced busy.table) (omega arith)

next_proc-Highest_example : NextHighest low
next_proc-Highest_example = next_proc-Highest low (kernel_of-IsPlaced low.table)

scheduler-mlfq_example : MlfqRound busy
scheduler-mlfq_example =
    scheduler-mlfq busy (kernel_of-IsPlaced busy.table) busy-IsReady (omega arith)

scheduler-monopoly_example : MonopolyRound exclusive
scheduler-monopoly_example = scheduler-monopoly exclusive exclusive-IsReady refl

-- No call is under way.
abbrev idle : Calls
idle = record { leaving = λ i. false; entering = 0 }

abbrev idle_at : Kernel → System
idle_at k = record { kernel = k; calls = idle }

exclusive-Counted : Counted 0 idle exclusive
unfolding count_at
exclusive-Counted = omega arith

find-exclusive : find_with_pid exclusive (pos 2) ≡ some 1
unfolding find_with_pid find_index find_from
find-exclusive = refl

-- Pid 2 is passed over once, in favour of pid 3.
passed-busy : PassedOver 1 1 1 (at_position busy 1 3)
unfolding next_proc next_round_robin round_robin
passed-busy =
    pass {k = busy} {k' = at_position busy 1 3} (begin (kernel_of-IsPlaced busy.table)) refl
      (let e : next_proc busy 1 ≡ done (some 2, at_position busy 1 3) = refl in e) (omega arith)
      placed refl
  where
    bound : (level : ℕ) → get_or (0 ∷ 3 ∷ 0 ∷ 1 ∷ []) level 0 < nproc
    bound zero = omega arith
    bound (suc zero) = omega arith
    bound (suc (suc zero)) = omega arith
    bound (suc (suc (suc zero))) = omega arith
    bound (suc (suc (suc (suc n)))) = omega arith

    placed : IsPlaced (at_position busy 1 3)
    placed = record { four = refl; within = bound }

next_proc-bounded_waiting_example : 1 ≤ 63
next_proc-bounded_waiting_example =
    next_proc-bounded_waiting {level = 1} {j = 1} (omega arith) (omega arith) passed-busy

emptied-Counted : Counted 0 idle emptied
unfolding count_at
emptied-Counted = omega arith

scheduler-emptied : scheduler emptied ≡ done (unmonopolize emptied)
unfolding scheduler next_proc next_monopoly select monopoly_round unmonopolize
scheduler-emptied = refl

unmonopolized : (unmonopolize emptied).is_monopolized ≡ 0
unfolding unmonopolize
unmonopolized = refl

scheduler-leaves_empty_example :
    ((unmonopolize emptied).is_monopolized ≡ 1)
    ⊎ ((i : ℕ) → in_monopoly (proc_at emptied i) ≡ true → false ≡ true)
scheduler-leaves_empty_example =
    scheduler-leaves_empty (idle_at emptied) emptied-Counted here refl refl scheduler-emptied

-- Pid 2 enters the monopoly queue a second time.
abbrev entered : Kernel
entered = count_entry (enter_queue exclusive 1)

-- That is what the whole call gives.
setmonopoly-exclusive : (setmonopoly exclusive (pos 2) moq_password).1 ≡ entered
unfolding setmonopoly enter_queue count_entry find_with_pid find_index find_from assign
setmonopoly-exclusive = refl

entered-mode : entered.is_monopolized ≡ 1
unfolding enter_queue count_entry assign
entered-mode = refl

scheduler-entered : scheduler entered ≡ done (switched_to entered 1)
unfolding scheduler next_proc next_monopoly select monopoly_round dispatch switchuvm enter_queue
    count_entry assign update
scheduler-entered = refl

setmonopoly-again_stuck_example : (switched_to entered 1).is_monopolized ≡ 1
setmonopoly-again_stuck_example =
    setmonopoly-again_stuck (idle_at exclusive) (idle_at entered) 1 exclusive-Counted refl
      (next here (counts_entry (omega arith))) refl entered-mode scheduler-entered

Reach-IsPlaced_example : IsPlaced (tail_state (timer_trap (kill busy (pos 3)).1 true))
Reach-IsPlaced_example =
    Reach-IsPlaced {s = idle_at busy} (next (next here (kills (pos 3))) (ticks true))
      (kernel_of-IsPlaced busy.table)

-- `setmonopoly` makes an exited process runnable again.
revived :
    (proc_at
      (setmonopoly
        (record exclusive { table = update exclusive.table 3 (λ p. record p { state = zombie }) })
        (pos 4)
        moq_password).1
      3).state
    ≡ runnable
unfolding setmonopoly enter_queue count_entry find_with_pid find_index find_from assign update
revived = refl

-- Pid 3 runs at level 0 with one tick left.
abbrev worn : Proc
worn = record (user_proc 3 0 running) { quantum = pos 1 }

abbrev ticking : Kernel
ticking =
    kernel_of
      (table_of worn (user_proc 1 0 sleeping) (user_proc 2 1 runnable) (user_proc 4 3 runnable))

timer_trap-Replaced_example :
    (resume : ℕ) × (k' : Kernel) × (q : Proc) × (timer_trap ticking true ≡ yields resume k')
    × (get_elem? k'.table 0 ≡ some (record q { state = runnable }))
    × Replaced worn q
timer_trap-Replaced_example =
    timer_trap-Replaced ticking 0 worn true
      (record { on_cpu = refl; at = refl; running_now = refl }) refl (omega arith) refl
