-- ===== src/Mlfq/Steps.antt =====
-- The kernel as a transition system over the process table and the scheduler's variables: every
-- routine of proc.c and trap.c that changes them is a step, and they come in any order.
use ele.Base.{ℕ, ◌+◌, ◌-◌, ◌<◌, some, false, ◌≡◌, Bool, true, Option, ℤ, done, List}
use ele.Proc.Table.{assign, Kernel, Channel, proc_at}
use ele.Proc.Create.{fork}
use ele.Proc.Sleep.{find_with_pid, sleep_on, sleep_return, wakeup, yield, kill}
use ele.Proc.Finish.{exit_begin, exit_end, wait}
use ele.Mlfq.Calls.{setpriority, enter_queue, count_entry, monopolize, unmonopolize}
use ele.Mlfq.Scheduler.{scheduler}
use ele.Mlfq.Trap.{trap_tail, timer_trap}
use ele.Mlfq.Counter.{
  Counted, is_alive, wakeup1-Counted, sleep_on-Counted, sleep_return-Counted, yield-Counted,
  kill-Counted, setpriority-Counted, enter_queue-Counted, count_entry-Counted, assign-Counted,
  Calls,
}
use ele.Mlfq.Counter.Process.{
  fork-Counted, exit_begin-Counted, exit_end-Counted, wait-Counted, waited_state, with_leaving,
}
use ele.Mlfq.Counter.Dispatch.{scheduler-Counted}
use ele.Mlfq.Counter.Clock.{tail_state, trap_tail-Counted, timer_trap-Counted}

-- The kernel, and the calls that are under way.
pub record System : Type 0 where
  pub kernel : Kernel
  pub calls : Calls

abbrev pub with_kernel : System → Kernel → System
with_kernel s k = record s { kernel = k }

-- `cur` is the process that makes the call; it is alive. `exit` and `setmonopoly` are two steps each,
-- with any others between them; `keeps_files` stands for what a process does to its descriptors.
pub data Step (s : System) : System → Type 0 where
  forks : (cur kstack pgdir : ℕ) → Step s (with_kernel s (fork s.kernel cur kstack pgdir).1)
  begins_exit :
      {k : Kernel} (cur : ℕ)
      → is_alive (proc_at s.kernel cur) ≡ true
      → s.calls.leaving cur ≡ false
      → exit_begin s.kernel cur ≡ done k
      → Step s (record { kernel = k; calls = with_leaving s.calls cur true })
  ends_exit :
      (cur : ℕ)
      → is_alive (proc_at s.kernel cur) ≡ true
      → s.calls.leaving cur ≡ true
      → Step s (record { kernel = exit_end s.kernel cur; calls = with_leaving s.calls cur false })
  keeps_files :
      (cur : ℕ) (ofile : List (Option ℕ)) (cwd : Option ℕ)
      → Step s (with_kernel s (assign s.kernel cur (λ p. record p { ofile = ofile; cwd = cwd })))
  waits :
      (cur : ℕ)
      → is_alive (proc_at s.kernel cur) ≡ true
      → Step s (with_kernel s (waited_state (wait s.kernel cur)))
  sleeps :
      (cur : ℕ) (chan : Option Channel)
      → is_alive (proc_at s.kernel cur) ≡ true
      → Step s (with_kernel s (sleep_on s.kernel cur chan))
  wakes_up : (cur : ℕ) → Step s (with_kernel s (sleep_return s.kernel cur))
  wakes : (chan : Option Channel) → Step s (with_kernel s (wakeup s.kernel chan))
  gives_up :
      (cur : ℕ)
      → is_alive (proc_at s.kernel cur) ≡ true
      → Step s (with_kernel s (yield s.kernel cur))
  kills : (pid : ℤ) → Step s (with_kernel s (kill s.kernel pid).1)
  sets_priority : (pid priority : ℤ) → Step s (with_kernel s (setpriority s.kernel pid priority).1)
  enters_queue :
      (pid : ℤ) {i : ℕ}
      → find_with_pid s.kernel pid ≡ some i
      → Step s (record {
        kernel = enter_queue s.kernel i;
        calls = record (s.calls) { entering = s.calls.entering + 1 };
      })
  counts_entry :
      0 < s.calls.entering
      → Step s (record {
        kernel = count_entry s.kernel;
        calls = record (s.calls) { entering = s.calls.entering - 1 };
      })
  monopolizes : Step s (with_kernel s (monopolize s.kernel))
  unmonopolizes : Step s (with_kernel s (unmonopolize s.kernel))
  schedules : {k : Kernel} → scheduler s.kernel ≡ done k → Step s (with_kernel s k)
  ticks : (user_mode : Bool) → Step s (with_kernel s (tail_state (timer_trap s.kernel user_mode)))
  traps :
      (resume : ℕ) (user_mode : Bool)
      → Step s (with_kernel s (tail_state (trap_tail resume s.kernel user_mode)))

pub data Reach (s : System) : System → Type 0 where
  here : Reach s s
  next : {t u : System} → Reach s t → Step t u → Reach s u

-- No step lets the counter fall closer to the number of processes in the monopoly queue.
pub Step-Counted :
    (d : ℕ) {s t : System} → Step s t → Counted d s.calls s.kernel → Counted d t.calls t.kernel
unfolding wakeup monopolize unmonopolize
Step-Counted d {s} (forks cur kstack pgdir) c = fork-Counted d s.calls s.kernel cur kstack pgdir c
Step-Counted d {s} (begins_exit cur alive fresh e) c =
    exit_begin-Counted d s.calls s.kernel cur alive fresh e c
Step-Counted d {s} (ends_exit cur alive leaves) c = exit_end-Counted d s.calls s.kernel cur c
Step-Counted d {s} (keeps_files cur ofile cwd) c =
    assign-Counted d s.calls s.kernel cur (λ p. record p { ofile = ofile; cwd = cwd }) (λ x at q. q)
      c
Step-Counted d {s} (waits cur alive) c = wait-Counted d s.calls s.kernel cur alive c
Step-Counted d {s} (sleeps cur chan alive) c = sleep_on-Counted d s.calls s.kernel cur chan alive c
Step-Counted d {s} (wakes_up cur) c = sleep_return-Counted d s.calls s.kernel cur c
Step-Counted d {s} (wakes chan) c = wakeup1-Counted d s.calls s.kernel chan c
Step-Counted d {s} (gives_up cur alive) c = yield-Counted d s.calls s.kernel cur alive c
Step-Counted d {s} (kills pid) c = kill-Counted d s.calls s.kernel pid c
Step-Counted d {s} (sets_priority pid priority) c =
    setpriority-Counted d s.calls s.kernel pid priority c
Step-Counted d {s} (enters_queue pid {i} e) c = enter_queue-Counted d s.calls s.kernel i c
Step-Counted d {s} (counts_entry l) c = count_entry-Counted d s.calls s.kernel l c
Step-Counted d {s} monopolizes c = c
Step-Counted d {s} unmonopolizes c = c
Step-Counted d {s} (schedules e) c = scheduler-Counted d s.calls s.kernel e c
Step-Counted d {s} (ticks user_mode) c = timer_trap-Counted d s.calls s.kernel user_mode c
Step-Counted d {s} (traps resume user_mode) c =
    trap_tail-Counted d s.calls resume s.kernel user_mode c

pub Reach-Counted :
    (d : ℕ) {s t : System} → Counted d s.calls s.kernel → Reach s t → Counted d t.calls t.kernel
Reach-Counted d c here = c
Reach-Counted d c (next r st) = Step-Counted d st (Reach-Counted d c r)
