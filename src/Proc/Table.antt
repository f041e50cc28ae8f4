-- ===== src/Proc/Table.antt =====
-- proc.h and the globals of proc.c: the process table, the scheduler's variables, and the clock of
-- trap.c. Pointers into `ptable.proc` are table indices, with `none` for a null pointer. The kernel
-- stack's contents and the saved context are not modelled; of the trap frame, `eax` and the rest.
use ele.Base.{
  ℕ, zero, suc, ℤ, ◌≡◌, ◌∷◌, Bool, true, false, Option, none, some, List, [], get_elem?, get_or,
  arith, ◌==◌, update,
}

-- `enum procstate`, with the number that C gives each.
pub data ProcState : Type 0 where
  unused embryo sleeping runnable running zombie : ProcState

abbrev pub state_code : ProcState → ℕ
state_code unused = 0
state_code embryo = 1
state_code sleeping = 2
state_code runnable = 3
state_code running = 4
state_code zombie = 5

abbrev pub same_state : ProcState → ProcState → Bool
same_state a b = state_code a == state_code b

-- What a process can sleep on: the address of a `struct proc`, or any other kernel address.
pub data Channel : Type 0 where
  proc_channel : ℕ → Channel
  address : ℕ → Channel

abbrev pub same_channel : Option Channel → Option Channel → Bool
same_channel none none = true
same_channel (some (proc_channel a)) (some (proc_channel b)) = a == b
same_channel (some (address a)) (some (address b)) = a == b
same_channel _ _ = false

pub record Trapframe : Type 0 where
  pub eax : ℕ
  pub others : List ℕ

-- `struct proc`. A file or an inode is named by its index, a page by its address, 0 for null.
pub record Proc : Type 0 where
  pub sz : ℕ
  pub pgdir : ℕ
  pub kstack : ℕ
  pub state : ProcState
  pub pid : ℕ
  pub parent : Option ℕ
  pub tf : Trapframe
  pub chan : Option Channel
  pub killed : ℕ
  pub ofile : List (Option ℕ)
  pub cwd : Option ℕ
  pub name : List ℕ
  pub quantum : ℤ
  pub priority : ℤ
  pub level : ℕ

-- `NPROC` of param.h.
abbrev pub nproc : ℕ
nproc = 64

-- The globals of proc.c, `mycpu()->proc` of the one CPU, and `ticks` of trap.c.
pub record Kernel : Type 0 where
  pub table : List Proc
  pub nextpid : ℕ
  pub initproc : Option ℕ
  pub current : Option ℕ
  pub is_monopolized : ℕ
  pub moq_cnt : ℤ
  pub moq_priority : ℕ
  pub queue_position : List ℕ
  pub ticks : ℕ

-- A zeroed `struct proc`, which stands for what lies beyond the table.
abbrev pub zeroed : Proc
zeroed = record {
  sz = 0;
  pgdir = 0;
  kstack = 0;
  state = unused;
  pid = 0;
  parent = none;
  tf = record { eax = 0; others = [] };
  chan = none;
  killed = 0;
  ofile = [];
  cwd = none;
  name = [];
  quantum = ℤ.pos 0;
  priority = ℤ.pos 0;
  level = 0;
}

abbrev pub proc_at : Kernel → ℕ → Proc
proc_at k i = get_or k.table i zeroed

-- The assignments through a pointer `p` to fields of `*p`.
unfoldable pub assign : Kernel → ℕ → (Proc → Proc) → Kernel
assign k i f = record k { table = update k.table i f }

-- The calls that process management makes into the other parts of the kernel, in order.
pub data Effect : Type 0 where
  kfree freevm filedup fileclose : ℕ → Effect
  idup iput : Option ℕ → Effect
  begin_op end_op : Effect

pub get_or_of_get_elem? :
    (xs : List Proc) (i : ℕ) {p : Proc} → get_elem? xs i ≡ some p → get_or xs i zeroed ≡ p
get_or_of_get_elem? [] i h = cc
get_or_of_get_elem? (x ∷ xs) zero h = ground arith
get_or_of_get_elem? (x ∷ xs) (suc i) h = get_or_of_get_elem? xs i h
