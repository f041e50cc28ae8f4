-- ===== src/Mlfq/Placed/Reached.antt =====
-- The queue positions under every step: they stay indices of the table.
use ele.Mlfq.Placed.Clock.{trap_tail-Within, timer_tick-SameQueues}
use ele.Mlfq.Placed.Dispatch.{scheduler-Within}
use ele.Mlfq.Placed.Process.{
  fork-SameQueues, exit_begin-SameQueues, exit_end-SameQueues, wait-SameQueues, sleep_on-SameQueues,
  sleep_return-SameQueues, yield-SameQueues, assign-SameQueues, kill-SameQueues,
  setpriority-SameQueues, enter_queue-SameQueues,
}
use ele.Mlfq.RoundRobin.{IsPlaced}
use ele.Mlfq.Trap.{timer_tick, timer_trap}
use ele.Mlfq.Calls.{unmonopolize, monopolize}
use ele.Proc.Sleep.{wakeup, wakeup1}
use ele.Mlfq.Placed.{Within}
use ele.Mlfq.Calls.{count_entry}
use ele.Mlfq.Steps.{
  System, Step, Reach, here, next, forks, begins_exit, ends_exit, keeps_files, waits, sleeps,
  wakes_up, wakes, gives_up, kills, sets_priority, enters_queue, counts_entry, monopolizes,
  unmonopolizes, schedules, ticks, traps,
}
use ele.Base.{subst, sym}

Step-Within :
    {s t : System} → Step s t → Within s.kernel.queue_position → Within t.kernel.queue_position
unfolding wakeup wakeup1 monopolize unmonopolize count_entry timer_trap
Step-Within {s} (forks cur kstack pgdir) w =
    subst Within (sym (fork-SameQueues s.kernel cur kstack pgdir)) w
Step-Within {s} (begins_exit cur alive fresh e) w =
    subst Within (sym (exit_begin-SameQueues s.kernel cur e)) w
Step-Within {s} (ends_exit cur alive leaves) w =
    subst Within (sym (exit_end-SameQueues s.kernel cur)) w
Step-Within {s} (keeps_files cur ofile cwd) w =
    subst Within (sym (assign-SameQueues s.kernel cur (λ p. record p { ofile = ofile; cwd = cwd })))
      w
Step-Within {s} (waits cur alive) w = subst Within (sym (wait-SameQueues s.kernel cur)) w
Step-Within {s} (sleeps cur chan alive) w =
    subst Within (sym (sleep_on-SameQueues s.kernel cur chan)) w
Step-Within {s} (wakes_up cur) w = subst Within (sym (sleep_return-SameQueues s.kernel cur)) w
Step-Within {s} (wakes chan) w = w
Step-Within {s} (gives_up cur alive) w = subst Within (sym (yield-SameQueues s.kernel cur)) w
Step-Within {s} (kills pid) w = subst Within (sym (kill-SameQueues s.kernel pid)) w
Step-Within {s} (sets_priority pid priority) w =
    subst Within (sym (setpriority-SameQueues s.kernel pid priority)) w
Step-Within {s} (enters_queue pid {i} e) w =
    subst Within (sym (enter_queue-SameQueues s.kernel i)) w
Step-Within {s} (counts_entry l) w = w
Step-Within {s} monopolizes w = w
Step-Within {s} unmonopolizes w = w
Step-Within {s} (schedules e) w = scheduler-Within s.kernel e w
Step-Within {s} (ticks user_mode) w =
    trap_tail-Within 0 (timer_tick s.kernel) user_mode
      (subst Within (sym (timer_tick-SameQueues s.kernel)) w)
Step-Within {s} (traps resume user_mode) w = trap_tail-Within resume s.kernel user_mode w

-- Whatever the processes and the clock do, valid queue positions stay valid.
pub Reach-IsPlaced : {s t : System} → Reach s t → IsPlaced s.kernel → IsPlaced t.kernel
Reach-IsPlaced here p = p
Reach-IsPlaced (next r st) p =
    let q = Reach-IsPlaced r p in
    let w = Step-Within st (q.four, q.within) in record { four = w.0; within = w.1 }
