-- ===== src/Mlfq/Trap.antt =====
-- The scheduling part of `trap` in trap.c: the timer interrupt on CPU 0, and what every trap but a
-- system call does before it returns. A `yield` cuts it; it goes on where it stopped.
use ele.Base.{
  ℕ, ◌+◌, ◌%◌, ◌^◌, pos, decrement, ltb_ℤ, leb_ℤ, leb, ◌==◌, ◌&&◌, ◌||◌, if◌then◌else◌, Bool, false,
  not, Option, none, some,
}
use ele.Proc.Table.{Proc, Kernel, Channel, address, running, same_state, proc_at, assign}
use ele.Proc.Sleep.{wakeup, yield}
use ele.Mlfq.Calls.{priority_boosting}

-- The address `&ticks`, on which `sys_sleep` waits.
abbrev pub ticks_channel : Channel
ticks_channel = address 0

-- `myproc() && myproc()->state == RUNNING`
unfoldable pub running_proc : Kernel → Option ℕ
running_proc k = elim k.current [
  | none ↦ none
  | some cur ↦ if same_state (proc_at k cur).state running then some cur else none
]

-- `myproc()->quantum--` under its test.
unfoldable pub charge : Kernel → Option ℕ → Kernel
charge k none = k
charge k (some cur) = assign k cur (λ p. record p { quantum = decrement p.quantum })

-- `case T_IRQ0 + IRQ_TIMER` on CPU 0; `ticks` is an `unsigned int`.
unfoldable pub timer_tick : Kernel → Kernel
timer_tick k =
    let counted = record k { ticks = (k.ticks + 1) % 2 ^ 32 } in
    wakeup (charge counted (running_proc counted)) (some ticks_channel)

-- `quantum <= 0`
abbrev pub expired : Proc → Bool
expired p = leb_ℤ p.quantum (pos 0)

-- The three tests on the running process, and the process after the assignments of each.
abbrev pub leaves_l0 : Proc → Bool
leaves_l0 p = p.level == 0 && expired p

abbrev pub from_l0 : Proc → Proc
from_l0 p =
    if p.pid % 2 == 0
    then record p { level = 2; quantum = pos 6 }
    else record p { level = 1; quantum = pos 4 }

abbrev pub leaves_l12 : Proc → Bool
leaves_l12 p = (p.level == 1 || p.level == 2) && expired p

abbrev pub from_l12 : Proc → Proc
from_l12 p = record p { quantum = pos 8; level = 3 }

abbrev pub renews_l3 : Proc → Bool
renews_l3 p = p.level == 3 && expired p

abbrev pub from_l3 : Proc → Proc
from_l3 p =
    let less = decrement p.priority in
    record p { quantum = pos 8; priority = if ltb_ℤ less (pos 0) then pos 0 else less }

-- One of the three `if` statements: the state at its `yield`, or `none` if the test fails.
unfoldable pub demote : (Proc → Bool) → (Proc → Proc) → Kernel → Option Kernel
demote test change k = elim (running_proc k) [
  | none ↦ none
  | some cur ↦ if test (proc_at k cur) then some (yield (assign k cur change) cur) else none
]

-- `myproc() && myproc()->killed && (tf->cs&3) == DPL_USER`
unfoldable pub must_exit : Kernel → (user_mode : Bool) → Bool
must_exit k user_mode = elim k.current [
  | none ↦ false
  | some cur ↦ not ((proc_at k cur).killed == 0) && user_mode
]

-- What `trap` does after its `switch`: it calls `yield`, and goes on from a later statement when the
-- process runs again; or it calls `exit`; or it returns.
pub data Tail : Type 0 where
  yields : (resume : ℕ) → Kernel → Tail
  exits : Kernel → Tail
  returns : Kernel → Tail

-- The boost under `tickslock`.
unfoldable pub boost_if_due : Kernel → Kernel
boost_if_due k = if k.ticks % 100 == 0 then priority_boosting k else k

abbrev pub or_yield : (resume : ℕ) → Option Kernel → Tail → Tail
or_yield resume none rest = rest
or_yield resume (some k) rest = yields resume k

-- The boost and the last test.
unfoldable pub trap_end : Kernel → (user_mode : Bool) → Tail
trap_end k user_mode =
    let k' = boost_if_due k in if must_exit k' user_mode then exits k' else returns k'

-- The statements after the `switch` from number `resume` on: 0 is the test of `killed`, 1 to 3 are
-- the tests of the quantum, 4 is the boost.
unfoldable pub trap_tail : (resume : ℕ) → Kernel → (user_mode : Bool) → Tail
trap_tail resume k user_mode =
    let fourth = trap_end k user_mode in
    let third = if leb resume 3 then or_yield 4 (demote renews_l3 from_l3 k) fourth else fourth in
    let second = if leb resume 2 then or_yield 3 (demote leaves_l12 from_l12 k) third else third in
    let first = if leb resume 1 then or_yield 2 (demote leaves_l0 from_l0 k) second else second in
    if resume == 0 && must_exit k user_mode then exits k else first

-- A timer interrupt, up to where `trap` first gives up the CPU or returns.
unfoldable pub timer_trap : Kernel → (user_mode : Bool) → Tail
timer_trap k user_mode = trap_tail 0 (timer_tick k) user_mode
