-- ===== src/Mlfq/Rounds.antt =====
-- What one round of `scheduler` does: which process it runs, and that it does not panic.
use ele.Base.{
  ℕ, ◌+◌, ◌≤◌, ◌<◌, ◌≡◌, ◌≢◌, refl, subst, ◌⊎◌, inl, inr, true, false, some, arith, dec_lt, done,
  length, ◌==◌, eq_ℤ, pos, if◌then◌else◌, ◌%◌,
}
use ele.Proc.Table.{Kernel, nproc, proc_at, running, runnable, assign, same_state}
use ele.Mlfq.Queues.{candidate, at_position}
use ele.Mlfq.Scheduler.{scheduler, mlfq_round, monopoly_round, dispatch, switchuvm}
use ele.Mlfq.Calls.{unmonopolize}
use ele.Mlfq.RoundRobin.{IsPlaced, Nearest, next_proc-Nearest}
use ele.Mlfq.Priority.{Highest, Earliest, next_proc-Highest, next_proc-Earliest}
use ele.Mlfq.Choice.{first_level-cases}

-- What `switchuvm` needs of the processes that wait to run.
pub record IsReady (k : Kernel) : Type 0 where
  pub full : length k.table ≡ nproc
  pub loaded :
      (i : ℕ)
      → i < nproc
      → same_state (proc_at k i).state runnable ≡ true
      → ((proc_at k i).kstack ≢ 0) × ((proc_at k i).pgdir ≢ 0)

-- The state in which the CPU switches to a process.
abbrev pub switched_to : Kernel → ℕ → Kernel
switched_to k s = assign (record k { current = some s }) s (λ p. record p { state = running })

dispatch-done :
    (k k' : Kernel) (level s : ℕ)
    → IsReady k
    → proc_at k' s ≡ proc_at k s
    → s < nproc
    → candidate k level s ≡ true
    → dispatch k' (some s) ≡ done (switched_to k' s)
unfolding dispatch switchuvm
dispatch-done k k' level s r same l w = rw same (ground (arith, r.loaded s l))

-- The process that a round picks at a level.
abbrev pub Picked : Kernel → (level s : ℕ) → Type 0
Picked k level s = ((level ≤ 2) × Nearest k level s) ⊎ ((level ≡ 3) × Highest k s)

-- A round over levels 0 to 3.
abbrev pub MlfqRound : Kernel → Type 0
MlfqRound k =
    ((scheduler k ≡ done k) × ((level j : ℕ) → level < 4 → j < nproc → candidate k level j ≡ false))
    ⊎ ((level s : ℕ) × (scheduler k ≡ done (switched_to (at_position k level ((s + 1) % nproc)) s))
        × (level < 4)
        × Picked k level s
        × ((m j : ℕ) → m < level → j < nproc → candidate k m j ≡ false))

-- A round over the monopoly queue.
abbrev pub MonopolyRound : Kernel → Type 0
MonopolyRound k =
    ((scheduler k ≡ done (if eq_ℤ k.moq_cnt (pos 0) then unmonopolize k else k))
      × ((j : ℕ) → j < nproc → candidate k 99 j ≡ false))
    ⊎ ((s : ℕ) × (scheduler k ≡ done (switched_to k s)) × Earliest k s)

module _ (k : Kernel) (v : IsPlaced k) (r : IsReady k) where
  pick-low :
      (level : ℕ)
      → level ≤ 2
      → ((i : ℕ) × (i < nproc) × (candidate k level i ≡ true))
      → (s : ℕ) × (mlfq_round k (some level)
          ≡ done (switched_to (at_position k level ((s + 1) % nproc)) s))
        × Picked k level s
  unfolding mlfq_round
  pick-low level h (i, l, w) = elim (next_proc-Nearest k level v h) [
    | inl (e, nothing) ↦ absurd (cc (nothing i l, w))
    | inr (s, e, f) ↦ (
      s,
      rw (e, mlfq_round)
          (dispatch-done k (at_position k level ((s + 1) % nproc)) level s r refl f.within f.waits),
      inl (h, f),
    )
  ]

  pick-3 :
      ((i : ℕ) × (i < nproc) × (candidate k 3 i ≡ true))
      → (s : ℕ) × (mlfq_round k (some 3) ≡ done (switched_to (at_position k 3 ((s + 1) % nproc)) s))
        × Picked k 3 s
  unfolding mlfq_round
  pick-3 (i, l, w) = elim (next_proc-Highest k v) [
    | inl (e, nothing) ↦ absurd (cc (nothing i l, w))
    | inr (s, e, f) ↦ (
      s,
      rw (e, mlfq_round)
          (dispatch-done k (at_position k 3 ((s + 1) % nproc)) 3 s r refl f.within f.waits),
      inr (refl, f),
    )
  ]

  pick :
      (level : ℕ)
      → level < 4
      → ((i : ℕ) × (i < nproc) × (candidate k level i ≡ true))
      → (s : ℕ) × (mlfq_round k (some level)
          ≡ done (switched_to (at_position k level ((s + 1) % nproc)) s))
        × Picked k level s
  pick level h o = elim (dec_lt level 3) [
    | yes p ↦ pick-low level (omega arith) o
    | no p ↦
        subst
          (λ l.
            ((i : ℕ) × (i < nproc) × (candidate k l i ≡ true))
            → (s : ℕ) × (mlfq_round k (some l)
                ≡ done (switched_to (at_position k l ((s + 1) % nproc)) s))
              × Picked k l s)
          {x = 3} {y = level} (omega arith) pick-3 o
  ]

  -- Outside monopoly mode, with valid queue positions and with a kernel stack and a page directory
  -- for every runnable process, a round of `scheduler` returns: it leaves the state alone when no
  -- process of the table waits at a level from 0 to 3; otherwise it switches to a process of the
  -- first level at which one waits, namely to the nearest to the queue position at levels 0 to 2,
  -- and to one of the highest priority at level 3.
  pub scheduler-mlfq : k.is_monopolized ≢ 1 → MlfqRound k
  unfolding scheduler mlfq_round
  scheduler-mlfq off = elim (first_level-cases k r.full 4 0 (λ m l. absurd (omega arith))) [
    | inl (e, nothing) ↦ inl (rw (mode, e) refl, λ level j h l. nothing level h j l)
    | inr (level, e, h, o, below) ↦
        let (s, p, f) = pick level h o in
        inr (level, s, rw (mode, e) p, h, f, λ m j q l. below m q j l)
  ]
    where
      mode : (k.is_monopolized == 1) ≡ false
      mode = ground arith

-- In monopoly mode, with a kernel stack and a page directory for every runnable process, a round of
-- `scheduler` returns. When no process waits in the monopoly queue it leaves the state alone, but
-- for leaving the mode if `moq_cnt` is 0; otherwise it switches to the waiting process with the
-- lowest `priority` field. It never picks a process of levels 0 to 3.
pub scheduler-monopoly : (k : Kernel) → IsReady k → k.is_monopolized ≡ 1 → MonopolyRound k
unfolding scheduler monopoly_round
scheduler-monopoly k r on = elim (next_proc-Earliest k) [
  | inl (e, nothing) ↦ inl (rw (mode, e) refl, nothing)
  | inr (s, e, f) ↦ inr (s, rw (mode, e) (dispatch-done k k 99 s r refl f.within f.waits), f)
]
  where
    mode : (k.is_monopolized == 1) ≡ true
    mode = ground arith
