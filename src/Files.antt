-- ===== src/Files.antt =====
-- xv6-public/file.c and the descriptors of xv6-public/sysfile.c: the table of open files, whose
-- entries the processes share, and the descriptors of each process. A file, a process and a descriptor
-- are their indices, and the null pointer of `ofile` is `none`. The calls of different processes are
-- not interleaved.
pub mod Counts
pub mod Moves
pub mod Returns
pub mod Loops
pub mod Pipes
pub mod PipeReturns
pub mod Used
mod Tests
pub use ele.Proc.Table.{nproc}
use ele.Base.{
  ℕ, zero, suc, ◌+◌, ◌-◌, ◌*◌, ◌/◌, ◌%◌, ◌^◌, ◌≤◌, ◌<◌, ◌≡◌, refl, sym, ap, ap₂, ◌∙◌, subst, ◌≢◌,
  ◌↔◌, ◌⊎◌, inl, inr, Bool, true, false, ◌&&◌, ◌||◌, not, Option, none, some, List, [], ◌∷◌, ◌++◌,
  map, arith, dec_lt, ℕ_discrete, ltb, leb, ◌==◌, if◌then◌else◌, Bool-cases, Option-cases, length,
  get_elem?, get_or, replicate, take, drop, Outcome, done, panic, undefined, ◌>>=◌, >>=-eq-done,
  pos, negsuc, ℤ, length-append, store,
}

-- `NFILE` and `NOFILE` of param.h.
abbrev pub nfile : ℕ
nfile = 100

abbrev pub nofile : ℕ
nofile = 16

pub data FileType : Type 0 where
  fd_none : FileType
  fd_pipe : FileType
  fd_inode : FileType

-- `struct file`; `pipe` and `ip` are addresses.
pub record File : Type 0 where
  pub type : FileType
  pub ref : ℕ
  pub readable : Bool
  pub writable : Bool
  pub pipe : ℕ
  pub ip : ℕ
  pub off : ℕ

-- `ftable`, and `ofile` of each process.
pub record Files : Type 0 where
  pub file : ℕ → File
  pub ofile : ℕ → ℕ → Option ℕ

-- Assignments to fields of a file, and to a descriptor.
unfoldable pub assign : ℕ → (File → File) → Files → Files
assign f g s = record s { file = store s.file f (g (s.file f)) }

unfoldable pub set_fd : (p fd : ℕ) → Option ℕ → Files → Files
set_fd p fd v s = record s { ofile = store s.ofile p (store (s.ofile p) fd v) }

-- The loop of `filealloc` from `f` on, over `n` files.
unfoldable pub free_file : (n f : ℕ) → (ℕ → File) → Option ℕ
free_file zero f file = none
free_file (suc n) f file = if (file f).ref == 0 then some f else free_file n (f + 1) file

unfoldable pub filealloc : Files → Option (ℕ × Files)
filealloc s = elim (free_file nfile 0 s.file) [
  | none ↦ none
  | some f ↦ some (f, assign f (λ x. record x { ref = 1 }) s)
]

unfoldable pub filedup : ℕ → Files → Outcome Files
filedup f s =
    if ltb (s.file f).ref 1 then panic else done (assign f (λ x. record x { ref = x.ref + 1 }) s)

-- What `fileclose` calls once the entry is free.
pub data Closing : Type 0 where
  nothing : Closing
  pipeclose : (pipe : ℕ) (writable : Bool) → Closing
  iput : (ip : ℕ) → Closing

abbrev pub closing : File → Closing
closing x = elim x.type [
  | fd_none ↦ nothing
  | fd_pipe ↦ pipeclose x.pipe x.writable
  | fd_inode ↦ iput x.ip
]

unfoldable pub fileclose : ℕ → Files → Outcome (Files × Closing)
fileclose f s =
    let ff = s.file f in
    if ltb ff.ref 1
    then panic
    else if ltb 0 (ff.ref - 1)
    then done (assign f (λ x. record x { ref = x.ref - 1 }) s, nothing)
    else done (assign f (λ x. record x { ref = 0; type = fd_none }) s, closing ff)

-- `argfd`, for an argument that `argint` has fetched.
unfoldable pub argfd : (p : ℕ) → ℤ → Files → Option (ℕ × ℕ)
argfd p (negsuc n) s = none
argfd p (pos fd) s =
    if leb nofile fd then none else elim (s.ofile p fd) [ none ↦ none | some f ↦ some (fd, f) ]

-- The loop of `fdalloc` from `fd` on, over `n` descriptors.
unfoldable pub free_fd : (n fd : ℕ) → (ℕ → Option ℕ) → Option ℕ
free_fd zero fd ofile = none
free_fd (suc n) fd ofile = elim (ofile fd) [ none ↦ some fd | some f ↦ free_fd n (fd + 1) ofile ]

unfoldable pub fdalloc : (p f : ℕ) → Files → Option (ℕ × Files)
fdalloc p f s = elim (free_fd nofile 0 (s.ofile p)) [
  | none ↦ none
  | some fd ↦ some (fd, set_fd p fd (some f) s)
]

-- The system calls return the value for the caller.
unfoldable pub sys_dup : (p : ℕ) → ℤ → Files → Outcome (ℤ × Files)
sys_dup p n s = elim (argfd p n s) [
  | none ↦ done (negsuc 0, s)
  | some (_, f) ↦ elim (fdalloc p f s) [
    | none ↦ done (negsuc 0, s)
    | some (fd, t) ↦ filedup f t >>= λ u. done (pos fd, u)
  ]
]

unfoldable pub sys_close : (p : ℕ) → ℤ → Files → Outcome (ℤ × Files × Closing)
sys_close p n s = elim (argfd p n s) [
  | none ↦ done (negsuc 0, s, nothing)
  | some (fd, f) ↦ fileclose f (set_fd p fd none s) >>= λ (t, calls). done (pos 0, t, calls)
]

-- `sys_open` once the inode at `ip` is found and locked; `rdonly`, `wronly` and `rdwr` are the bits of
-- the mode.
unfoldable pub open_inode :
    (p ip : ℕ) → (wronly rdwr : Bool) → Files → Outcome (ℤ × Files × Closing)
open_inode p ip wronly rdwr s = elim (filealloc s) [
  | none ↦ done (negsuc 0, s, nothing)
  | some (f, t) ↦ elim (fdalloc p f t) [
    | none ↦ fileclose f t >>= λ (u, calls). done (negsuc 0, u, calls)
    | some (fd, u) ↦ done (
      pos fd,
      assign f
          (λ x. record x {
            type = fd_inode;
            ip = ip;
            off = 0;
            readable = not wronly;
            writable = wronly || rdwr;
          })
          u,
      nothing,
    )
  ]
]

-- The loops of `fork` and `exit` (proc.c) over the descriptors from `fd` on, `n` of them.
unfoldable pub dup_fds : (n fd p np : ℕ) → Files → Outcome Files
dup_fds zero fd p np s = done s
dup_fds (suc n) fd p np s = elim (s.ofile p fd) [
  | none ↦ dup_fds n (fd + 1) p np s
  | some f ↦ filedup f s >>= λ t. dup_fds n (fd + 1) p np (set_fd np fd (some f) t)
]

unfoldable pub close_fds : (n fd p : ℕ) → Files → Outcome (Files × List Closing)
close_fds zero fd p s = done (s, [])
close_fds (suc n) fd p s = elim (s.ofile p fd) [
  | none ↦ close_fds n (fd + 1) p s
  | some f ↦ fileclose f s >>= λ (t, calls).
      close_fds n (fd + 1) p (set_fd p fd none t) >>= λ (u, rest). done (u, calls ∷ rest)
]
