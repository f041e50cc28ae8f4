-- ===== src/Proc/Finish.antt =====
-- `exit` and `wait` of proc.c, up to the call of `sched` or `sleep`.
use ele.Base.{
  ◌>>=◌, ℕ, zero, suc, ℤ, pos, negsuc, decrement, ◌==◌, ◌&&◌, ◌||◌, if◌then◌else◌, Bool, true,
  false, not, Option, none, some, List, [], ◌∷◌, ◌++◌, map, Outcome, done, panic, same_pointer, set,
}
use mathlib.Core.Option
use ele.Proc.Table.{
  Proc, Kernel, Effect, kfree, freevm, fileclose, iput, begin_op, end_op, Channel, proc_channel,
  unused, zombie, same_state, proc_at, assign, nproc,
}
use ele.Proc.Sleep.{wakeup1, sleep_on}

unfoldable pub fileclose_calls : List (Option ℕ) → List Effect
fileclose_calls [] = []
fileclose_calls (none ∷ fs) = fileclose_calls fs
fileclose_calls (some f ∷ fs) = fileclose f ∷ fileclose_calls fs

-- The address of the process that a pointer holds, as a sleep channel.
abbrev pub channel_of : Option ℕ → Option Channel
channel_of p = Option.map proc_channel p

-- The body of the loop that passes children to init, at index `i`.
unfoldable pub adopt : (cur i : ℕ) → Kernel → Kernel
adopt cur i k =
    if same_pointer (proc_at k i).parent (some cur)
    then (let k' = assign k i (λ p. record p { parent = k.initproc }) in
        if same_state (proc_at k' i).state zombie then wakeup1 k' (channel_of k.initproc) else k')
    else k

-- The loop, with the rounds left and the index.
unfoldable pub adopt_loop : ℕ → (cur i : ℕ) → Kernel → Kernel
adopt_loop zero cur i k = k
adopt_loop (suc n) cur i k = adopt_loop n cur (suc i) (adopt cur i k)

abbrev pub close_files : Proc → Proc
close_files p = record p { ofile = map (λ f. none) p.ofile; cwd = none }

-- `exit` up to `moq_cnt--`.
unfoldable pub exit_begin : Kernel → (cur : ℕ) → Outcome Kernel
exit_begin k cur =
    if same_pointer (some cur) k.initproc
    then panic
    else done (record k {
      moq_cnt = if (proc_at k cur).level == 99 then decrement k.moq_cnt else k.moq_cnt;
    })

-- `exit` from `acquire(&ptable.lock)` to `sched`.
unfoldable pub exit_end : Kernel → (cur : ℕ) → Kernel
exit_end k cur =
    let woken = wakeup1 k (channel_of (proc_at k cur).parent) in
    assign (adopt_loop nproc cur 0 woken) cur (λ p. record p { state = zombie })

-- The state in which `exit` calls `sched`, and the calls that it makes before, when none of them
-- sleeps. Where one does, other processes run between `exit_begin` and `exit_end`.
unfoldable pub exit : Kernel → (cur : ℕ) → Outcome (Kernel × List Effect)
exit k cur =
    let curproc = proc_at k cur in
    exit_begin k cur >>= λ counted. done (
      exit_end (assign counted cur close_files) cur,
      fileclose_calls curproc.ofile ++ begin_op ∷ iput curproc.cwd ∷ end_op ∷ [],
    )

-- What one pass over the table finds: whether there are children, and the first zombie among them.
unfoldable pub wait_scan : (cur i : ℕ) → (havekids : Bool) → List Proc → Bool × Option ℕ
wait_scan cur i havekids [] = (havekids, none)
wait_scan cur i havekids (p ∷ ps) =
    if same_pointer p.parent (some cur) && same_state p.state zombie
    then (true, some i)
    else wait_scan cur (suc i) (havekids || same_pointer p.parent (some cur)) ps

abbrev pub reap : Proc → Proc
reap p = record p {
  kstack = 0;
  pid = 0;
  parent = none;
  name = set p.name 0 0;
  killed = 0;
  state = unused;
}

-- `wait` returns, or goes to sleep and takes another pass when it wakes.
pub data Waited : Type 0 where
  returned : ℤ → Kernel → List Effect → Waited
  sleeps : Kernel → Waited

unfoldable pub wait : Kernel → (cur : ℕ) → Waited
wait k cur =
    let (havekids, found) = wait_scan cur 0 false k.table in
    elim found [
      | some i ↦
          let p = proc_at k i in
          returned (pos p.pid) (assign k i reap) (kfree p.kstack ∷ freevm p.pgdir ∷ [])
      | none ↦
          if not havekids || not ((proc_at k cur).killed == 0)
          then returned (negsuc 0) k []
          else sleeps (sleep_on k cur (channel_of (some cur)))
    ]
