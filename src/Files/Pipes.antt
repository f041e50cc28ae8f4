-- ===== src/Files/Pipes.antt =====
-- `pipealloc` (xv6-public/pipe.c) and `sys_pipe` (xv6-public/sysfile.c) on the table of open files and
-- the descriptors. What `kalloc` returns is an argument; the pipe itself is in Pipe.
use ele.Base.{ℕ, true, false, Option, none, some, List, [], ◌∷◌, Outcome, done, ◌>>=◌}
use ele.Files.{Files, Closing, File, filealloc, fileclose, assign, fdalloc, set_fd, fd_pipe}

-- The two calls of `fileclose` when there is a failure.
unfoldable pub close_both : (f g : ℕ) → Files → Outcome (Files × List Closing)
close_both f g s = fileclose f s >>= λ (t, c). fileclose g t >>= λ (u, d). done (u, c ∷ d ∷ [])

-- The assignments to the files of the two ends.
abbrev pub read_end : (pipe : ℕ) → File → File
read_end pipe x = record x { type = fd_pipe; readable = true; writable = false; pipe = pipe }

abbrev pub write_end : (pipe : ℕ) → File → File
write_end pipe x = record x { type = fd_pipe; readable = false; writable = true; pipe = pipe }

-- `pipealloc`: the files of the ends, or `none` for -1.
unfoldable pub open_pipe :
    (page : Option ℕ) → Files → Outcome (Option (ℕ × ℕ) × Files × List Closing)
open_pipe page s = elim (filealloc s) [
  | none ↦ done (none, s, [])
  | some (f, t) ↦ elim (filealloc t) [
    | none ↦ fileclose f t >>= λ (u, c). done (none, u, c ∷ [])
    | some (g, u) ↦ elim page [
      | none ↦ close_both f g u >>= λ (v, calls). done (none, v, calls)
      | some pipe ↦ done (some (f, g), assign g (write_end pipe) (assign f (read_end pipe) u), [])
    ]
  ]
]

-- The descriptors of the two files, or `none` for -1.
unfoldable pub pipe_fds : (p f g : ℕ) → Files → Outcome (Option (ℕ × ℕ) × Files × List Closing)
pipe_fds p f g s = elim (fdalloc p f s) [
  | none ↦ close_both f g s >>= λ (t, calls). done (none, t, calls)
  | some (fd0, t) ↦ elim (fdalloc p g t) [
    | none ↦ close_both f g (set_fd p fd0 none t) >>= λ (u, calls). done (none, u, calls)
    | some (fd1, u) ↦ done (some (fd0, fd1), u, [])
  ]
]

-- `sys_pipe` after `argptr`: the two descriptors, or `none` for -1.
unfoldable pub sys_pipe :
    (p : ℕ) (page : Option ℕ) → Files → Outcome (Option (ℕ × ℕ) × Files × List Closing)
sys_pipe p page s = open_pipe page s >>= λ (r, t, calls). elim r [
  | none ↦ done (none, t, calls)
  | some (f, g) ↦ pipe_fds p f g t
]
