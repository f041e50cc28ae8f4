-- ===== src/Mlfq/Placed/Process.antt =====
-- The queue positions under the routines of process management (proc.c).
use ele.Mlfq.Counter.Process.{waited_state}
use ele.Proc.Create.{fork, allocproc}
use ele.Mlfq.Calls.{enter_queue, setpriority}
use ele.Proc.Finish.{exit_begin, exit_end, wait, adopt_loop, adopt, wait_scan}
use ele.Proc.Sleep.{kill, sleep_on, sleep_return, yield, wakeup1}
use ele.Proc.Table.{Kernel, assign, Channel, nproc, proc_at, Proc}
use ele.Mlfq.Placed.{SameQueues, Proc}
use ele.Base.{
  Bool-cases, Option, Option-cases, arith, done, false, inl, inr, not, refl, same_pointer, some,
  suc, zero, ℕ, ℤ, ◌==◌, ◌||◌, ◌∙◌, ◌≡◌,
}

pub fork-SameQueues : (k : Kernel) (cur kstack pgdir : ℕ) → SameQueues k (fork k cur kstack pgdir).1
unfolding fork allocproc assign
fork-SameQueues k cur kstack pgdir = ground arith

adopt-SameQueues : (cur i : ℕ) (k : Kernel) → SameQueues k (adopt cur i k)
unfolding adopt assign wakeup1
adopt-SameQueues cur i k = ground arith

adopt_loop-SameQueues : (n cur i : ℕ) (k : Kernel) → SameQueues k (adopt_loop n cur i k)
unfolding adopt_loop
adopt_loop-SameQueues zero cur i k = refl
adopt_loop-SameQueues (suc n) cur i k =
    adopt_loop-SameQueues n cur (suc i) (adopt cur i k) ∙ adopt-SameQueues cur i k

pub exit_begin-SameQueues :
    (k : Kernel) {k' : Kernel} (cur : ℕ) → exit_begin k cur ≡ done k' → SameQueues k k'
unfolding exit_begin
exit_begin-SameQueues k {k'} cur e = elim (Bool-cases (same_pointer (some cur) k.initproc)) [
  | inl b ↦ absurd (cc (rw (b, exit_begin) at e))
  | inr b ↦ ground arith
]

pub exit_end-SameQueues : (k : Kernel) (cur : ℕ) → SameQueues k (exit_end k cur)
unfolding exit_end assign wakeup1
exit_end-SameQueues k cur = adopt_loop-SameQueues nproc cur 0 _

pub wait-SameQueues : (k : Kernel) (cur : ℕ) → SameQueues k (waited_state (wait k cur))
unfolding wait assign sleep_on
wait-SameQueues k cur = elim (Option-cases (wait_scan cur 0 false k.table).1) [
  | inr (i, e) ↦ rw (e, wait) refl
  | inl e ↦
      elim (Bool-cases
        (not (wait_scan cur 0 false k.table).0 || not ((proc_at k cur).killed == 0))) [
          | inl b ↦ rw (e, wait, b) refl
          | inr b ↦ rw (e, wait, b) refl
        ]
]

pub kill-SameQueues : (k : Kernel) (pid : ℤ) → SameQueues k (kill k pid).1
unfolding kill assign
kill-SameQueues k pid = ground arith

pub setpriority-SameQueues :
    (k : Kernel) (pid priority : ℤ) → SameQueues k (setpriority k pid priority).1
unfolding setpriority assign
setpriority-SameQueues k pid priority = ground arith

pub enter_queue-SameQueues : (k : Kernel) (i : ℕ) → SameQueues k (enter_queue k i)
unfolding enter_queue assign
enter_queue-SameQueues k i = refl

pub sleep_on-SameQueues :
    (k : Kernel) (cur : ℕ) (chan : Option Channel) → SameQueues k (sleep_on k cur chan)
unfolding sleep_on assign
sleep_on-SameQueues k cur chan = refl

pub sleep_return-SameQueues : (k : Kernel) (cur : ℕ) → SameQueues k (sleep_return k cur)
unfolding sleep_return assign
sleep_return-SameQueues k cur = refl

pub yield-SameQueues : (k : Kernel) (cur : ℕ) → SameQueues k (yield k cur)
unfolding yield assign
yield-SameQueues k cur = refl

pub assign-SameQueues : (k : Kernel) (cur : ℕ) (f : Proc → Proc) → SameQueues k (assign k cur f)
unfolding assign
assign-SameQueues k cur f = refl
