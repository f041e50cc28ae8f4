-- ===== src/Mlfq/Queues.antt =====
-- `is_runnable`, `can_mlfq` and `next_proc` of proc.c. Each runs under `ptable.lock`.
use ele.Base.{
  ℕ, zero, suc, ◌+◌, ◌%◌, pos, ltb_ℤ, ltb, ◌==◌, leb, ◌&&◌, if◌then◌else◌, Bool, true, false,
  Option, none, some, find_index, get_or, set, Outcome, done, undefined,
}
use ele.Proc.Table.{Proc, Kernel, runnable, same_state, proc_at, nproc}

unfoldable pub is_runnable : Option Proc → Bool
is_runnable none = false
is_runnable (some p) = same_state p.state runnable && ltb_ℤ (pos 0) p.quantum && ltb p.level 4

-- A process waiting to run in the queue of a level.
abbrev pub waits_at : ℕ → Proc → Bool
waits_at level p = p.level == level && same_state p.state runnable

unfoldable pub can_mlfq : Kernel → (level : ℕ) → Bool
can_mlfq k level = elim (find_index (waits_at level) k.table) [ none ↦ false | some i ↦ true ]

-- `start = (queue_position[level] + i) % NPROC`
abbrev pub ring : Kernel → (level i : ℕ) → ℕ
ring k level i = (get_or k.queue_position level 0 + i) % nproc

-- The loop of levels 0 to 2, with the rounds left: the first index, going round from
-- `queue_position`, of a process that waits at the level.
unfoldable pub round_robin : Kernel → (level : ℕ) → ℕ → (i : ℕ) → Option ℕ
round_robin k level zero i = none
round_robin k level (suc n) i =
    let start = ring k level i in
    if waits_at level (proc_at k start) then some start else round_robin k level n (suc i)

-- The loops of levels 3 and 99: `temp` is replaced by a candidate that beats it.
module _ (visit : ℕ → ℕ) (candidate : ℕ → Bool) (beats : ℕ → ℕ → Bool) where
  abbrev pub consider : ℕ → Option ℕ → Option ℕ
  consider p none = some p
  consider p (some temp) = if beats p temp then some p else some temp

  unfoldable pub select : ℕ → (i : ℕ) → (temp : Option ℕ) → Option ℕ
  select zero i temp = temp
  select (suc n) i temp =
      select n (suc i) (if candidate (visit i) then consider (visit i) temp else temp)

-- `temp->priority < p->priority`
abbrev pub higher : Kernel → ℕ → ℕ → Bool
higher k p temp = ltb_ℤ (proc_at k temp).priority (proc_at k p).priority

-- `temp->priority > p->priority`
abbrev pub lower : Kernel → ℕ → ℕ → Bool
lower k p temp = ltb_ℤ (proc_at k p).priority (proc_at k temp).priority

abbrev pub candidate : Kernel → (level i : ℕ) → Bool
candidate k level i = waits_at level (proc_at k i)

abbrev pub at_position : Kernel → (level position : ℕ) → Kernel
at_position k level position = record k { queue_position = set k.queue_position level position }

unfoldable pub next_round_robin : Kernel → (level : ℕ) → Option ℕ × Kernel
next_round_robin k level = elim (round_robin k level nproc 0) [
  | none ↦ (none, k)
  | some start ↦ (some start, at_position k level ((start + 1) % nproc))
]

-- With no process at level 3, `temp - ptable.proc` subtracts from a null pointer.
unfoldable pub next_by_priority : Kernel → Outcome (Option ℕ × Kernel)
next_by_priority k = elim (select (ring k 3) (candidate k 3) (higher k) nproc 0 none) [
  | none ↦ undefined
  | some temp ↦ done (some temp, at_position k 3 ((temp + 1) % nproc))
]

unfoldable pub next_monopoly : Kernel → Option ℕ
next_monopoly k = select (λ i. i) (candidate k 99) (lower k) nproc 0 none

-- The result is the index of the process, or `none` for a null pointer.
unfoldable pub next_proc : Kernel → (level : ℕ) → Outcome (Option ℕ × Kernel)
next_proc k level =
    if leb level 2
    then done (next_round_robin k level)
    else (if level == 3
        then next_by_priority k
        else (if level == 99 then done (next_monopoly k, k) else done (none, k)))
