-- ===== src/Mlfq/Samples.antt =====
-- Concrete process tables for the tests.
use ele.Base.{
  ℕ, zero, suc, ◌≡◌, ◌<◌, refl, Bool, true, Option, none, some, pos, List, [], ◌∷◌, replicate,
  arith, get_or, ◌&&◌, length, ◌==◌, not, ◌||◌,
}
use ele.Proc.Table.{Proc, Kernel, ProcState, sleeping, runnable, same_state, zeroed, nproc, proc_at}
use ele.Mlfq.RoundRobin.{IsPlaced}
use ele.Mlfq.Rounds.{IsReady}

abbrev no_files : List (Option ℕ)
no_files = replicate 16 none

abbrev pub user_proc : (pid level : ℕ) → ProcState → Proc
user_proc pid level state = record zeroed {
  pid = pid;
  kstack = 4096;
  pgdir = 8192;
  state = state;
  level = level;
  quantum = pos 2;
  ofile = some 7 ∷ replicate 15 none;
}

abbrev free_slot : Proc
free_slot = record zeroed { ofile = no_files }

-- Pids 1 to 4 in the first slots, the others free.
abbrev pub table_of : (a b c d : Proc) → List Proc
table_of a b c d = a ∷ b ∷ c ∷ d ∷ replicate 60 free_slot

abbrev pub kernel_of : List Proc → Kernel
kernel_of table = record {
  table = table;
  nextpid = 5;
  initproc = some 0;
  current = some 0;
  is_monopolized = 0;
  moq_cnt = pos 0;
  moq_priority = 0;
  queue_position = 0 ∷ 2 ∷ 0 ∷ 1 ∷ [];
  ticks = 7;
}

-- Level 0 is empty; two processes wait at level 1 and one at level 3.
abbrev pub busy : Kernel
busy = kernel_of (
    table_of (user_proc 1 0 sleeping) (user_proc 2 1 runnable) (user_proc 3 1 runnable)
      (user_proc 4 3 runnable))

-- Only level 3 is occupied.
abbrev pub low : Kernel
low = kernel_of (
    table_of (user_proc 1 0 sleeping) (user_proc 2 3 runnable)
      (record (user_proc 3 3 runnable) { priority = pos 9 })
      (record (user_proc 4 3 runnable) { priority = pos 9 }))

-- One process in the monopoly queue.
abbrev pub exclusive : Kernel
exclusive =
    record (kernel_of (
      table_of (user_proc 1 0 sleeping) (user_proc 2 99 runnable) (user_proc 3 1 runnable)
        (user_proc 4 3 runnable))) { is_monopolized = 1; moq_cnt = pos 1; moq_priority = 1 }

-- The mode is still on and the queue is empty.
abbrev pub emptied : Kernel
emptied = record busy { is_monopolized = 1 }

pub kernel_of-IsPlaced : (table : List Proc) → IsPlaced (kernel_of table)
kernel_of-IsPlaced table = record { four = refl; within = bound }
  where
    bound : (level : ℕ) → get_or (0 ∷ 2 ∷ 0 ∷ 1 ∷ []) level 0 < nproc
    bound zero = omega arith
    bound (suc zero) = omega arith
    bound (suc (suc zero)) = omega arith
    bound (suc (suc (suc zero))) = omega arith
    bound (suc (suc (suc (suc n)))) = omega arith

all_pass : (Proc → Bool) → List Proc → Bool
all_pass p [] = true
all_pass p (x ∷ xs) = p x && all_pass p xs

all_pass-get_or :
    (p : Proc → Bool) (xs : List Proc) (i : ℕ)
    → p zeroed ≡ true
    → all_pass p xs ≡ true
    → p (get_or xs i zeroed) ≡ true
unfolding all_pass
all_pass-get_or p [] i z h = z
all_pass-get_or p (x ∷ xs) zero z h = ground arith
all_pass-get_or p (x ∷ xs) (suc i) z h = all_pass-get_or p xs i z (ground arith)

abbrev is_loaded : Proc → Bool
is_loaded p = not (same_state p.state runnable) || (not (p.kstack == 0) && not (p.pgdir == 0))

loaded-IsReady :
    (k : Kernel) → length k.table ≡ nproc → all_pass is_loaded k.table ≡ true → IsReady k
loaded-IsReady k full h = record {
  full = full;
  loaded = λ i l w.
      let e : is_loaded (proc_at k i) ≡ true = all_pass-get_or is_loaded k.table i refl h in
      (ground arith, ground arith);
}

pub busy-IsReady : IsReady busy
unfolding all_pass
busy-IsReady = loaded-IsReady busy refl refl

pub low-IsReady : IsReady low
unfolding all_pass
low-IsReady = loaded-IsReady low refl refl

pub exclusive-IsReady : IsReady exclusive
unfolding all_pass
exclusive-IsReady = loaded-IsReady exclusive refl refl
