-- ===== src/Mlfq/Scheduler.antt =====
-- `scheduler` of proc.c: one round of its loop, up to the switch to the process. The one CPU takes
-- no interrupt between the tests of a round. `switchuvm` is that of vm.c, as far as it can panic.
use ele.Base.{
  ℕ, zero, suc, pos, eq_ℤ, ◌==◌, ◌||◌, if◌then◌else◌, Option, none, some, Outcome, done, panic,
  ◌>>=◌,
}
use ele.Proc.Table.{Proc, Kernel, running, proc_at, assign}
use ele.Mlfq.Queues.{can_mlfq, next_proc}
use ele.Mlfq.Calls.{unmonopolize}

unfoldable pub switchuvm : Option Proc → Outcome (Unit {0})
switchuvm none = panic
switchuvm (some p) = if p.kstack == 0 || p.pgdir == 0 then panic else done tt

-- From `acquire` to `swtch`. On a null pointer `switchuvm` panics.
unfoldable pub dispatch : Kernel → Option ℕ → Outcome Kernel
dispatch k none = switchuvm none >>= λ _. done k
dispatch k (some i) = switchuvm (some (proc_at k i)) >>= λ _.
    done (assign (record k { current = some i }) i (λ p. record p { state = running }))

-- The loop `for (i = 0; i <= 3; i++)`, with the rounds left: the first level with a process.
unfoldable pub first_level : Kernel → ℕ → (i : ℕ) → Option ℕ
first_level k zero i = none
first_level k (suc n) i = if can_mlfq k i then some i else first_level k n (suc i)

unfoldable pub monopoly_round : Kernel → Option ℕ → Outcome Kernel
monopoly_round k none = done (if eq_ℤ k.moq_cnt (pos 0) then unmonopolize k else k)
monopoly_round k (some i) = dispatch k (some i)

unfoldable pub mlfq_round : Kernel → Option ℕ → Outcome Kernel
mlfq_round k none = done k
mlfq_round k (some level) = do (p, k') ← next_proc k level; dispatch k' p

unfoldable pub scheduler : Kernel → Outcome Kernel
scheduler k =
    if k.is_monopolized == 1
    then (do (p, k') ← next_proc k 99; monopoly_round k' p)
    else mlfq_round k (first_level k 4 0)
