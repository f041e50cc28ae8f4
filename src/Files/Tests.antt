-- ===== src/Files/Tests.antt =====
-- A process opens a file and duplicates its descriptor; and the theorems at that run.
use ele.Files.{
  Files, assign, open_inode, sys_dup, fd_inode, Closing, set_fd, fd_none, argfd, filealloc,
  free_file, sys_close, fdalloc, free_fd, nothing, filedup, close_fds, nofile, File, fileclose,
}
use ele.Base.{
  ◌+◌, ◌-◌, ◌<◌, ◌≡◌, refl, ◌⊎◌, true, false, none, some, List, arith, done, pos, negsuc, ℤ, store,
  Option, ℕ, [], ◌>>=◌, ◌∷◌, Outcome,
}
use ele.Files.Counts.{references}
use ele.Files.Pipes.{sys_pipe, open_pipe, write_end, read_end, pipe_fds, close_both}
use ele.Files.Used.{
  Calls, here, next, opens, dups, IsZeroed, Calls-counts, sys_close-last, Calls-return, GivenUp,
  pipes,
}

abbrev zeroed : Files
zeroed = record {
  file = λ f. record {
    type = fd_none;
    ref = 0;
    readable = false;
    writable = false;
    pipe = 0;
    ip = 0;
    off = 0;
  };
  ofile = λ p fd. none;
}

zeroed-IsZeroed : IsZeroed zeroed
zeroed-IsZeroed = (λ f. (refl, refl), λ p fd. refl)

abbrev opened : Files
opened =
    assign 0 (λ x. record x { type = fd_inode; ip = 40; off = 0; readable = true; writable = true })
      (set_fd 3 0 (some 0) (assign 0 (λ x. record x { ref = 1 }) zeroed))

-- Mode `O_RDWR`.
opened-zeroed : open_inode 3 40 false true zeroed ≡ done (pos 0, opened, nothing)
unfolding open_inode filealloc free_file fdalloc free_fd assign set_fd store
opened-zeroed = refl

abbrev twice : Files
twice = assign 0 (λ x. record x { ref = x.ref + 1 }) (set_fd 3 1 (some 0) opened)

dup-opened : sys_dup 3 (pos 0) opened ≡ done (pos 1, twice)
unfolding sys_dup argfd fdalloc free_fd filedup assign set_fd store
dup-opened = refl

-- Of a descriptor that is not in use, and of a negative one.
bad_fds :
    (sys_dup 3 (pos 5) opened ≡ done (negsuc 0, opened))
    × (sys_dup 3 (negsuc 2) opened ≡ done (negsuc 0, opened))
unfolding sys_dup argfd assign set_fd store
bad_fds = (refl, refl)

to_twice : Calls zeroed twice
to_twice =
    next (next here (opens 3 40 false true (ground arith) opened-zeroed))
      (dups 3 (pos 0) (ground arith) dup-opened)

Calls-counts_example : (twice.file 0).ref ≡ references twice.ofile 0
Calls-counts_example = Calls-counts zeroed zeroed-IsZeroed to_twice 0 (ground arith)

-- A pipe on a page at 4096, with its ends at descriptors 0 and 1.
abbrev one_reference : File → File
one_reference x = record x { ref = 1 }

abbrev piped : Files
piped = set_fd 3 1 (some 1) (
    set_fd 3 0 (some 0) (
      assign 1 (write_end 4096)
        (assign 0 (read_end 4096) (assign 1 one_reference (assign 0 one_reference zeroed)))))

sys_pipe-zeroed : sys_pipe 3 (some 4096) zeroed ≡ done (some (0, 1), piped, [])
unfolding sys_pipe open_pipe pipe_fds filealloc free_file fdalloc free_fd assign set_fd store
sys_pipe-zeroed = refl

-- Without a page both files are closed again.
abbrev references_after :
    Outcome (Option (ℕ × ℕ) × Files × List Closing) → Outcome (ℕ × ℕ × List Closing)
references_after o = o >>= λ (r, t, calls). done ((t.file 0).ref, (t.file 1).ref, calls)

sys_pipe_undone : references_after (sys_pipe 3 none zeroed) ≡ done (0, 0, nothing ∷ nothing ∷ [])
unfolding sys_pipe open_pipe close_both fileclose filealloc free_file assign store
sys_pipe_undone = refl

names_writer : piped.ofile 3 1 ≡ some 1
unfolding assign set_fd store
names_writer = refl

to_piped : Calls zeroed piped
to_piped = next here (pipes 3 (some 4096) (ground arith) sys_pipe-zeroed)

sys_close-last_example :
    (u : Files) × (calls : Closing) × (sys_close 3 (pos 1) piped ≡ done (pos 0, u, calls))
    × (u.ofile 3 1 ≡ none)
    × (((references piped.ofile 1 ≡ 1) × GivenUp (piped.file 1) calls × ((u.file 1).ref ≡ 0))
        ⊎ ((1 < references piped.ofile 1)
            × (calls ≡ nothing)
            × (u.file 1 ≡ record (piped.file 1) { ref = (piped.file 1).ref - 1 })))
sys_close-last_example =
    sys_close-last zeroed zeroed-IsZeroed to_piped 3 1 1 (ground arith) (ground arith) names_writer

Calls-return_example :
    ((v : ℤ) × (u : Files) × (sys_dup 3 (pos 1) twice ≡ done (v, u)))
    × ((v : ℤ) × (u : Files) × (calls : Closing) × (sys_close 3 (pos 1) twice ≡ done (v, u, calls)))
    × ((r : Option (ℕ × ℕ)) × (u : Files) × (calls : List Closing) × (sys_pipe 3 (some 4096) twice
          ≡ done (r, u, calls)))
    × ((v : ℤ) × (u : Files) × (open_inode 3 41 true false twice ≡ done (v, u, nothing)))
    × ((u : Files) × (calls : List Closing) × (close_fds nofile 0 3 twice ≡ done (u, calls)))
Calls-return_example =
    Calls-return zeroed zeroed-IsZeroed to_twice 3 (ground arith) (pos 1) (some 4096) 41 true false
