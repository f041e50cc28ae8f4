-- ===== src/Mlfq/Counter.antt =====
-- The counter `moq_cnt` against the processes that are in the monopoly queue.
pub mod Process
pub mod Dispatch
pub mod Clock
use ele.Base.{
  count_at, count_at-update-le, count_at-map, count_at-update-le-suc, pos_part, neg_part, ℕ, zero,
  suc, ◌+◌, ◌≤◌, ◌<◌, ◌≡◌, refl, ◌⊎◌, inl, inr, Bool, true, false, not, Option, none, some, arith,
  ◌==◌, ◌&&◌, pos, ◌≤ℤ◌, count_if, update, count_if-update-le, count_if-update-le-suc,
  count_if-update-lt, count_if-map, List, get_elem?, get_or, increment, decrement, increment_parts,
  decrement_parts, if◌then◌else◌, done, Option-cases, Bool-cases, map, length, ℤ, negsuc, eq_ℤ,
  ltb_ℤ, ◌||◌, find_index, Outcome, same_pointer, ◌∷◌, [], ◌-◌,
}
use ele.Proc.Table.{
  Proc, Kernel, unused, zombie, sleeping, same_state, assign, proc_at, get_or_of_get_elem?, Channel,
  Effect, nproc, zeroed,
}
use ele.Proc.Create.{allocproc, enter_embryo, fork, copy_from}
use ele.Proc.Sleep.{
  wake, wakeup1, wakeup, sleep_on, sleep_return, yield, kill, find_with_pid, mark_killed, has_pid,
}
use ele.Proc.Finish.{
  exit, adopt, adopt_loop, wait, Waited, returned, sleeps, wait_scan, channel_of, close_files,
}
use ele.Mlfq.Calls.{
  setpriority, setmonopoly, priority_boosting, boost, monopolize, moq_password, enter_monopoly,
  unmonopolize, count_entry, enter_queue,
}

-- A process that is neither free nor a zombie.
abbrev pub is_alive : Proc → Bool
is_alive p = not (same_state p.state unused) && not (same_state p.state zombie)

abbrev pub in_monopoly : Proc → Bool
in_monopoly p = p.level == 99 && is_alive p

-- The calls that are under way: which processes are in `exit` past `exit_begin`, and how many calls of
-- `setmonopoly` are between `enter_queue` and `count_entry`.
pub record Calls : Type 0 where
  pub leaving : ℕ → Bool
  pub entering : ℕ

-- The process in the slot `i` is in the queue and not on its way out.
abbrev pub stays : Calls → ℕ → Proc → Bool
stays g i p = in_monopoly p && not (g.leaving i)

abbrev pub monopolists : Calls → Kernel → ℕ
monopolists g k = count_at (stays g) k.table

-- `moq_cnt`, with what the calls under way have yet to add to it, exceeds the number of living
-- processes of the monopoly queue that are not in `exit` by `extra` or more.
abbrev pub Counted : (extra : ℕ) → Calls → Kernel → Type 0
Counted extra g k = monopolists g k + extra + neg_part k.moq_cnt ≤ pos_part k.moq_cnt + g.entering

abbrev claim : Kernel → ℕ → Kernel
claim k i = record (assign k i (enter_embryo k.nextpid)) { nextpid = suc k.nextpid }

module _ (d : ℕ) (g : Calls) where
  -- An assignment through a pointer that brings no process into the queue keeps the count.
  pub assign-Counted :
      (k : Kernel) (i : ℕ) (f : Proc → Proc)
      → ((x : Proc)
          → get_elem? k.table i ≡ some x
          → in_monopoly (f x) ≡ true
          → in_monopoly x ≡ true)
      → Counted d g k
      → Counted d g (assign k i f)
  unfolding assign
  assign-Counted k i f keep c =
      omega (arith, count_at-update-le (stays g) k.table i f (λ x at e. ground (arith, keep x at)))

  pub wakeup1-Counted :
      (k : Kernel) (chan : Option Channel) → Counted d g k → Counted d g (wakeup1 k chan)
  unfolding wakeup1
  wakeup1-Counted k chan c =
      omega (arith, count_at-map (stays g) k.table (wake chan) (λ i x. ground arith))

  pub allocproc-Counted :
      (k : Kernel) (kstack : ℕ) → Counted d g k → Counted d g (allocproc k kstack).1
  unfolding allocproc assign
  allocproc-Counted k kstack c =
      elim (Option-cases (find_index (λ p. same_state p.state unused) k.table)) [
        | inl e ↦ rw (e, allocproc) c
        | inr (i, e) ↦
            let claimed : Counted d g (claim k i) =
              assign-Counted k i (enter_embryo k.nextpid) (λ x at q. ground arith) c in
            elim (Bool-cases (kstack == 0)) [
              | inl z ↦
                  rw (e, allocproc, z)
                    (assign-Counted (claim k i) i _ (λ x at q. ground arith) claimed)
              | inr z ↦ rw (e, allocproc, z) (assign-Counted (claim k i) i _ (λ x at q. q) claimed)
            ]
      ]

  pub sleep_on-Counted :
      (k : Kernel) (cur : ℕ) (chan : Option Channel)
      → is_alive (proc_at k cur) ≡ true
      → Counted d g k
      → Counted d g (sleep_on k cur chan)
  unfolding sleep_on
  sleep_on-Counted k cur chan alive =
      assign-Counted k cur _ (λ x at e. ground (arith, get_or_of_get_elem? k.table cur at))

  pub yield-Counted :
      (k : Kernel) (cur : ℕ)
      → is_alive (proc_at k cur) ≡ true
      → Counted d g k
      → Counted d g (yield k cur)
  unfolding yield
  yield-Counted k cur alive =
      assign-Counted k cur _ (λ x at e. ground (arith, get_or_of_get_elem? k.table cur at))

  pub sleep_return-Counted :
      (k : Kernel) (cur : ℕ) → Counted d g k → Counted d g (sleep_return k cur)
  unfolding sleep_return
  sleep_return-Counted k cur = assign-Counted k cur _ (λ x at e. e)

  pub kill-Counted : (k : Kernel) (pid : ℤ) → Counted d g k → Counted d g (kill k pid).1
  unfolding kill
  kill-Counted k pid c = elim (Option-cases (find_index (has_pid pid) k.table)) [
    | inl e ↦ rw (e, kill) c
    | inr (i, e) ↦ rw (e, kill) (assign-Counted k i mark_killed (λ x at q. ground arith) c)
  ]

  pub setpriority-Counted :
      (k : Kernel) (pid priority : ℤ) → Counted d g k → Counted d g (setpriority k pid priority).1
  unfolding setpriority
  setpriority-Counted k pid priority c =
      elim (Bool-cases (ltb_ℤ priority (pos 0) || ltb_ℤ (pos 10) priority)) [
        | inl b ↦ rw (b, setpriority) c
        | inr b ↦ elim (Option-cases (find_with_pid k pid)) [
          | inl e ↦ rw (b, setpriority, e) c
          | inr (i, e) ↦ rw (b, setpriority, e) (assign-Counted k i _ (λ x at q. q) c)
        ]
      ]

  pub boost-Counted : (k : Kernel) → Counted d g k → Counted d g (priority_boosting k)
  unfolding priority_boosting
  boost-Counted k c = omega (arith, count_at-map (stays g) k.table boost (λ i x. ground arith))

-- The two halves of `setmonopoly`: the queue grows by a process at most, and the counter by one.
pub enter_queue-Counted :
    (d : ℕ) (g : Calls) (k : Kernel) (i : ℕ)
    → Counted d g k
    → Counted d (record g { entering = g.entering + 1 }) (enter_queue k i)
unfolding enter_queue assign
enter_queue-Counted d g k i c =
    omega (arith, count_at-update-le-suc (stays g) k.table i (enter_monopoly k.moq_priority))

pub count_entry-Counted :
    (d : ℕ) (g : Calls) (k : Kernel)
    → 0 < g.entering
    → Counted d g k
    → Counted d (record g { entering = g.entering - 1 }) (count_entry k)
unfolding count_entry
count_entry-Counted d g k l c = omega (arith, increment_parts k.moq_cnt)
