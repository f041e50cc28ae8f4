-- ===== src/Proc/Sleep.antt =====
-- `sleep`, `wakeup1`, `wakeup`, `kill`, `yield` and `find_with_pid` of proc.c. Each section under
-- `ptable.lock` is one step; `sleep` and `yield` are cut at `sched`, where another process runs.
use ele.Base.{
  ℕ, ℤ, pos, negsuc, ◌==◌, ◌&&◌, if◌then◌else◌, Bool, false, Option, none, some, map, find_index,
}
use ele.Proc.Table.{Proc, Kernel, Channel, sleeping, runnable, same_state, same_channel, assign}

abbrev pub wake : Option Channel → Proc → Proc
wake chan p =
    if same_state p.state sleeping && same_channel p.chan chan
    then record p { state = runnable }
    else p

unfoldable pub wakeup1 : Kernel → Option Channel → Kernel
wakeup1 k chan = record k { table = map (wake chan) k.table }

unfoldable pub wakeup : Kernel → Option Channel → Kernel
wakeup k chan = wakeup1 k chan

-- Up to the call of `sched`.
unfoldable pub sleep_on : Kernel → (cur : ℕ) → Option Channel → Kernel
sleep_on k cur chan = assign k cur (λ p. record p { chan = chan; state = sleeping })

-- From the return of `sched` on.
unfoldable pub sleep_return : Kernel → (cur : ℕ) → Kernel
sleep_return k cur = assign k cur (λ p. record p { chan = none })

-- Up to the call of `sched`.
unfoldable pub yield : Kernel → (cur : ℕ) → Kernel
yield k cur = assign k cur (λ p. record p { state = runnable })

-- `p->pid == pid`, where no process has a negative pid.
abbrev pub has_pid : ℤ → Proc → Bool
has_pid (pos n) p = p.pid == n
has_pid (negsuc n) p = false

unfoldable pub find_with_pid : Kernel → ℤ → Option ℕ
find_with_pid k pid = find_index (has_pid pid) k.table

abbrev pub mark_killed : Proc → Proc
mark_killed p =
    if same_state p.state sleeping
    then record p { killed = 1; state = runnable }
    else record p { killed = 1 }

unfoldable pub kill : Kernel → ℤ → ℤ × Kernel
kill k pid = elim (find_index (has_pid pid) k.table) [
  | none ↦ (negsuc 0, k)
  | some i ↦ (pos 0, assign k i mark_killed)
]
