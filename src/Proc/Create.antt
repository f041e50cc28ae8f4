-- ===== src/Proc/Create.antt =====
-- `allocproc`, `userinit`, `fork` and `growproc` of proc.c. What `kalloc`, `setupkvm` and `copyuvm`
-- return is an argument: the address of a page or a page directory, 0 when memory is exhausted.
pub mod Slot
pub mod Child
use ele.Base.{
  ℕ, suc, ℤ, pos, negsuc, ◌==◌, if◌then◌else◌, Option, none, some, List, [], ◌∷◌, ◌++◌, find_index,
  Outcome, done, panic, undefined,
}
use ele.Proc.Table.{
  Proc, Kernel, Effect, kfree, filedup, idup, unused, embryo, runnable, same_state, proc_at, assign,
}

-- From the label `found` to the first `release`.
abbrev pub enter_embryo : ℕ → Proc → Proc
enter_embryo pid p = record p {
  state = embryo;
  pid = pid;
  level = 0;
  quantum = pos 2;
  priority = pos 0;
}

-- The index is that of the process found; `none` is a null pointer.
unfoldable pub allocproc : Kernel → (kstack : ℕ) → Option ℕ × Kernel
allocproc k kstack = elim (find_index (λ p. same_state p.state unused) k.table) [
  | none ↦ (none, k)
  | some i ↦
      let claimed = record (assign k i (enter_embryo k.nextpid)) { nextpid = suc k.nextpid } in
      if kstack == 0
      then (none, assign claimed i (λ p. record p { kstack = 0; state = unused }))
      else (some i, assign claimed i (λ p. record p { kstack = kstack }))
]

-- The bytes of "initcode".
abbrev pub initcode_name : List ℕ
initcode_name = b'i' ∷ b'n' ∷ b'i' ∷ b't' ∷ b'c' ∷ b'o' ∷ b'd' ∷ b'e' ∷ []

-- The null `p` of a failed `allocproc` is dereferenced. `frame` is the first trap frame.
unfoldable pub userinit :
    Kernel → (kstack pgdir : ℕ) → (frame : List ℕ) → (root : Option ℕ) → Outcome Kernel
userinit k kstack pgdir frame root =
    let (slot, k') = allocproc k kstack in
    elim slot [
      | none ↦ undefined
      | some i ↦
          if pgdir == 0
          then panic
          else done (
              assign (record k' { initproc = some i }) i
                (λ p. record p {
                  pgdir = pgdir;
                  sz = 4096;
                  tf = record { eax = 0; others = frame };
                  name = initcode_name;
                  cwd = root;
                  state = runnable;
                }))
    ]

-- The loop over `ofile`: an open file is shared, a null entry leaves the child's entry alone.
unfoldable pub copy_files : List (Option ℕ) → List (Option ℕ) → List (Option ℕ)
copy_files [] child = child
copy_files (f ∷ fs) [] = []
copy_files (none ∷ fs) (c ∷ child) = c ∷ copy_files fs child
copy_files (some f ∷ fs) (c ∷ child) = some f ∷ copy_files fs child

unfoldable pub filedup_calls : List (Option ℕ) → List Effect
filedup_calls [] = []
filedup_calls (none ∷ fs) = filedup_calls fs
filedup_calls (some f ∷ fs) = filedup f ∷ filedup_calls fs

abbrev pub copy_from : Proc → (parent pgdir : ℕ) → Proc → Proc
copy_from curproc parent pgdir np = record np {
  pgdir = pgdir;
  sz = curproc.sz;
  parent = some parent;
  tf = record curproc.tf { eax = 0 };
  ofile = copy_files curproc.ofile np.ofile;
  cwd = curproc.cwd;
  name = curproc.name;
  state = runnable;
}

-- `cur` is the index of `myproc()`. The result is the value returned, the state and the calls made.
unfoldable pub fork : Kernel → (cur kstack pgdir : ℕ) → ℤ × Kernel × List Effect
fork k cur kstack pgdir =
    let (slot, k') = allocproc k kstack in
    elim slot [
      | none ↦ (negsuc 0, k', [])
      | some np ↦
          let curproc = proc_at k' cur in
          if pgdir == 0
          then (
            negsuc 0,
            assign k' np (λ p. record p { kstack = 0; state = unused }),
            kfree (proc_at k' np).kstack ∷ [],
          )
          else (
            pos (proc_at k' np).pid,
            assign k' np (copy_from curproc cur pgdir),
            filedup_calls curproc.ofile ++ idup curproc.cwd ∷ [],
          )
    ]
