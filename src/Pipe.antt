-- ===== src/Pipe.antt =====
-- xv6-public/pipe.c: the ring of bytes between a writer and a reader. `nread` and `nwrite` are the
-- `uint` counters of the source and wrap at 2 ^ 32. A pass of `pipewrite` or `piperead` runs until
-- the routine returns or sleeps; after a wakeup the next pass goes on with what is left. What the
-- caller may do in between is another pass. `killed` is the caller's flag.
pub mod Window
pub mod Bytes
pub mod History
mod Tests
use ele.Base.{
  ℕ, zero, suc, ◌+◌, ◌-◌, ◌*◌, ◌/◌, ◌%◌, ◌^◌, ◌≤◌, ◌<◌, ◌≡◌, refl, sym, ap, ap₂, ◌∙◌, subst, ◌≢◌,
  ◌↔◌, ◌⊎◌, inl, inr, Bool, true, false, ◌&&◌, ◌||◌, not, Option, none, some, List, [], ◌∷◌, ◌++◌,
  map, arith, dec_lt, ℕ_discrete, ltb, leb, ◌==◌, if◌then◌else◌, Bool-cases, Option-cases, length,
  get_elem?, get_or, replicate, take, drop, Outcome, done, panic, undefined, ◌>>=◌, >>=-eq-done,
  pos, negsuc, ℤ, length-append, set,
}

-- `PIPESIZE`, and the number of values of a `uint`.
abbrev pub pipe_size : ℕ
pipe_size = 512

abbrev pub uint_size : ℕ
uint_size = 4294967296

-- `struct pipe`
pub record Pipe : Type 0 where
  pub data_bytes : List ℕ
  pub nread : ℕ
  pub nwrite : ℕ
  pub read_open : Bool
  pub write_open : Bool

-- The channels of `wakeup`: `&p->nread`, where readers sleep, and `&p->nwrite`.
pub data Channel : Type 0 where
  readers writers : Channel

-- `returned` stands for the return of `n`, `failed` for that of -1.
pub data Written : Type 0 where
  returned failed slept : Written

-- A pass of `pipewrite`: how it ends, the bytes that are still to be written, whom it wakes.
pub record Writing : Type 0 where
  pub status : Written
  pub rest : List ℕ
  pub wakes : Option Channel
  pub pipe : Pipe

-- `p->data[p->nwrite++ % PIPESIZE] = addr[i]`
unfoldable pub put_byte : ℕ → Pipe → Pipe
put_byte b p = record p {
  data_bytes = set p.data_bytes (p.nwrite % pipe_size) b;
  nwrite = (p.nwrite + 1) % uint_size;
}

unfoldable pub is_full : Pipe → Bool
is_full p = p.nwrite == ((p.nread + pipe_size) % uint_size)

unfoldable pub pipewrite : Bool → List ℕ → Pipe → Writing
pipewrite killed [] p = record { status = returned; rest = []; wakes = some readers; pipe = p }
pipewrite killed (b ∷ bs) p =
    let next = pipewrite killed bs (put_byte b p) in
    if is_full p
    then (if not p.read_open || killed
        then record { status = failed; rest = b ∷ bs; wakes = none; pipe = p }
        else record { status = slept; rest = b ∷ bs; wakes = some readers; pipe = p })
    else next

-- A pass of `piperead`: how it ends, the bytes in `addr`, whom it wakes. It returns their number.
pub record Reading : Type 0 where
  pub status : Written
  pub bytes : List ℕ
  pub wakes : Option Channel
  pub pipe : Pipe

-- `p->data[p->nread++ % PIPESIZE]`
unfoldable pub get_byte : Pipe → ℕ
get_byte p = get_or p.data_bytes (p.nread % pipe_size) 0

unfoldable pub pass_byte : Pipe → Pipe
pass_byte p = record p { nread = (p.nread + 1) % uint_size }

-- The copying loop of `piperead`.
unfoldable pub copy_out : ℕ → Pipe → List ℕ × Pipe
copy_out zero p = ([], p)
copy_out (suc n) p =
    let next = copy_out n (pass_byte p) in
    if p.nread == p.nwrite then ([], p) else (get_byte p ∷ next.0, next.1)

unfoldable pub piperead : Bool → ℕ → Pipe → Reading
piperead killed n p =
    let out = copy_out n p in
    if (p.nread == p.nwrite) && p.write_open
    then (if killed
        then record { status = failed; bytes = []; wakes = none; pipe = p }
        else record { status = slept; bytes = []; wakes = none; pipe = p })
    else record { status = returned; bytes = out.0; wakes = some writers; pipe = out.1 }

-- `pipeclose`: whom it wakes, and the pipe unless it frees it.
unfoldable pub pipeclose : Bool → Pipe → Channel × Option Pipe
pipeclose writable p =
    let after =
      if writable then record p { write_open = false } else record p { read_open = false } in
    (
      if writable then readers else writers,
      if not after.read_open && not after.write_open then none else some after,
    )

-- A `struct file` of type `FD_PIPE`, by its index in the file table.
pub record PipeFile : Type 0 where
  pub file : ℕ
  pub readable : Bool
  pub writable : Bool

pub data Allocated : Type 0 where
  opened : (f0 f1 : PipeFile) → Pipe → Allocated
  -- It returns -1 after a `fileclose` of these files.
  refused : (closed : List ℕ) → Allocated

-- `pipealloc`, given what `filealloc` and `kalloc` return and the bytes of the new page.
unfoldable pub pipealloc : Option ℕ → Option ℕ → Option (List ℕ) → Allocated
pipealloc none f1 page = refused []
pipealloc (some a) none page = refused (a ∷ [])
pipealloc (some a) (some b) none = refused (a ∷ b ∷ [])
pipealloc (some a) (some b) (some bytes) =
    opened (record { file = a; readable = true; writable = false })
      (record { file = b; readable = false; writable = true })
      (record { data_bytes = bytes; nread = 0; nwrite = 0; read_open = true; write_open = true })
