-- ===== src/Mlfq/Calls.antt =====
-- The scheduler's system calls of proc.c, and `priority_boosting`.
use ele.Base.{
  ℕ, suc, ℤ, pos, negsuc, increment, ltb_ℤ, eq_ℤ, ◌==◌, leb, ◌&&◌, ◌||◌, if◌then◌else◌, none, some,
  map, set,
}
use ele.Proc.Table.{Proc, Kernel, runnable, proc_at, assign}
use ele.Proc.Sleep.{find_with_pid}

unfoldable pub getlev : Kernel → (cur : ℕ) → ℕ
getlev k cur = (proc_at k cur).level

unfoldable pub setpriority : Kernel → (pid priority : ℤ) → ℤ × Kernel
setpriority k pid priority =
    if ltb_ℤ priority (pos 0) || ltb_ℤ (pos 10) priority
    then (negsuc 1, k)
    else elim (find_with_pid k pid) [
      | none ↦ (negsuc 0, k)
      | some i ↦ (pos 0, assign k i (λ p. record p { priority = priority }))
    ]

-- The password of `setmonopoly`.
abbrev pub moq_password : ℤ
moq_password = pos 2020087801

abbrev pub enter_monopoly : ℕ → Proc → Proc
enter_monopoly turn p = record p { priority = pos turn; level = 99; state = runnable }

-- The assignments to the process in the slot `i`.
unfoldable pub enter_queue : Kernel → (i : ℕ) → Kernel
enter_queue k i = record (assign k i (enter_monopoly k.moq_priority)) {
  moq_priority = suc k.moq_priority;
}

-- `moq_cnt++`
unfoldable pub count_entry : Kernel → Kernel
count_entry k = record k { moq_cnt = increment k.moq_cnt }

-- `setmonopoly` takes no lock: other processes may run between `enter_queue` and `count_entry`.
unfoldable pub setmonopoly : Kernel → (pid password : ℤ) → ℤ × Kernel
setmonopoly k pid password =
    if eq_ℤ password moq_password
    then elim (find_with_pid k pid) [
      | none ↦ (negsuc 0, k)
      | some i ↦ (let k' = count_entry (enter_queue k i) in (k'.moq_cnt, k'))
    ]
    else (negsuc 1, k)

unfoldable pub monopolize : Kernel → Kernel
monopolize k = record k { is_monopolized = 1 }

unfoldable pub unmonopolize : Kernel → Kernel
unmonopolize k = record k { is_monopolized = 0 }

abbrev pub boost : Proc → Proc
boost p =
    if p.level == 0
    then record p { quantum = pos 2 }
    else (if leb 1 p.level && leb p.level 3 then record p { level = 0; quantum = pos 2 } else p)

unfoldable pub priority_boosting : Kernel → Kernel
priority_boosting k = record k {
  table = map boost k.table;
  queue_position = set (set (set (set k.queue_position 0 0) 1 0) 2 0) 3 0;
}
