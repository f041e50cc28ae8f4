-- ===== src/Files/PipeReturns.antt =====
-- `sys_pipe` (sysfile.c, pipe.c) returns and keeps the reference counts.
use ele.Base.{
  ℕ, ◌+◌, ◌<◌, ◌≡◌, refl, ◌⊎◌, inl, inr, Option, none, some, List, [], ◌∷◌, arith, Option-cases,
  done, store, store_self,
}
use ele.Files.Pipes.{close_both, read_end, write_end, open_pipe, pipe_fds, sys_pipe}
use ele.Files.{Files, Closing, File, filealloc, assign, fdalloc, set_fd, nfile, nofile, nproc}
use ele.Files.Counts.{Counted, bump}
use ele.Files.Moves.{
  fresh-Counted, clear-Counted, put-Counted, drop-Counted, dropped, drop_calls, fields-Counted,
  set_fd_self,
}
use ele.Files.Returns.{free_file-cases, free_fd-cases}

abbrev one_reference : File → File
one_reference x = record x { ref = 1 }

filealloc-cases :
    (s : Files)
    → (filealloc s ≡ none)
      ⊎ ((f : ℕ) × (filealloc s ≡ some (f, assign f one_reference s))
          × (f < nfile)
          × ((s.file f).ref ≡ 0))
unfolding filealloc
filealloc-cases s = elim (free_file-cases nfile 0 s.file) [
  | inl e ↦ inl (rw (filealloc, e) refl)
  | inr (f, e, k, z) ↦ inr (f, rw (filealloc, e) refl, k, z)
]

fdalloc-cases :
    (p f : ℕ) (s : Files)
    → (fdalloc p f s ≡ none)
      ⊎ ((fd : ℕ) × (fdalloc p f s ≡ some (fd, set_fd p fd (some f) s))
          × (fd < nofile)
          × (s.ofile p fd ≡ none))
unfolding fdalloc
fdalloc-cases p f s = elim (free_fd-cases nofile 0 (s.ofile p)) [
  | inl e ↦ inl (rw (fdalloc, e) refl)
  | inr (fd, e, k, z) ↦ inr (fd, rw (fdalloc, e) refl, k, z)
]

-- Two references of the call, in the other order.
swap-Counted :
    (extra : ℕ → ℕ) (f g : ℕ) (s : Files)
    → Counted (bump (bump extra f) g) s
    → Counted (bump (bump extra g) f) s
unfolding store
swap-Counted extra f g s a = record {
  counts = λ h m. ground (arith, a.counts h m);
  named = a.named;
  blank = a.blank;
}

-- A file to which the call has a reference.
held-alive :
    (extra : ℕ → ℕ) (f : ℕ) (s : Files) → Counted (bump extra f) s → f < nfile → 0 < (s.file f).ref
held-alive extra f s a l = omega (arith, a.counts f l, store_self extra f (extra f + 1))

close_both-Counted :
    (extra : ℕ → ℕ) (f g : ℕ) (s : Files)
    → Counted (bump (bump extra g) f) s
    → f < nfile
    → g < nfile
    → (t : Files) × (calls : List Closing) × (close_both f g s ≡ done (t, calls)) × Counted extra t
unfolding close_both
close_both-Counted extra f g s a l m =
    let (runs, b) = drop-Counted (bump extra g) f s a l in
    let (again, c) = drop-Counted extra g (dropped f s) b m in
    (
      dropped g (dropped f s),
      drop_calls f s ∷ drop_calls g (dropped f s) ∷ [],
      rw (close_both, runs, again) refl,
      c,
    )

-- Both ends are described.
ends-Counted :
    (extra : ℕ → ℕ) (f g pipe : ℕ) (s : Files)
    → Counted (bump (bump extra g) f) s
    → f < nfile
    → g < nfile
    → Counted (bump (bump extra g) f) (assign g (write_end pipe) (assign f (read_end pipe) s))
ends-Counted extra f g pipe s a l m =
    let both = bump (bump extra g) f in
    let b : Counted both (assign f (read_end pipe) s) =
      fields-Counted both s a f (read_end pipe) refl (held-alive (bump extra g) f s a l) in
    fields-Counted both (assign f (read_end pipe) s) b g (write_end pipe) refl (
      held-alive (bump extra f) g (assign f (read_end pipe) s)
        (swap-Counted extra g f (assign f (read_end pipe) s) b) m)

open_pipe-returns :
    (extra : ℕ → ℕ) (s : Files) (page : Option ℕ)
    → Counted extra s
    → ((t : Files) × (calls : List Closing) × (open_pipe page s ≡ done (none, t, calls))
        × Counted extra t)
      ⊎ ((f : ℕ) × (g : ℕ) × (t : Files) × (open_pipe page s ≡ done (some (f, g), t, []))
          × (f < nfile)
          × (g < nfile)
          × Counted (bump (bump extra g) f) t)
unfolding open_pipe
open_pipe-returns extra s page a = elim (filealloc-cases s) [
  | inl e ↦ inl (s, [], rw (open_pipe, e) refl, a)
  | inr (f, e, l, z) ↦
      let t = assign f one_reference s in
      let b : Counted (bump extra f) t = fresh-Counted extra s a f z in
      elim (filealloc-cases t) [
        | inl q ↦
            let (runs, c) = drop-Counted extra f t b l in
            inl (dropped f t, drop_calls f t ∷ [], rw (open_pipe, e, q, runs) refl, c)
        | inr (g, q, m, y) ↦
            let u = assign g one_reference t in
            let c : Counted (bump (bump extra g) f) u =
              swap-Counted extra f g u (fresh-Counted (bump extra f) t b g y) in
            elim (Option-cases page) [
              | inl none_left ↦
                  let (v, calls, runs, d) = close_both-Counted extra f g u c l m in
                  inl (v, calls, rw (open_pipe, e, q, none_left, runs) refl, d)
              | inr (pipe, given) ↦ inr (
                f,
                g,
                assign g (write_end pipe) (assign f (read_end pipe) u),
                rw (open_pipe, e, q, given) refl,
                l,
                m,
                ends-Counted extra f g pipe u c l m,
              )
            ]
      ]
]

pipe_fds-returns :
    (extra : ℕ → ℕ) (p f g : ℕ) (s : Files)
    → Counted (bump (bump extra g) f) s
    → p < nproc
    → f < nfile
    → g < nfile
    → (r : Option (ℕ × ℕ)) × (t : Files) × (calls : List Closing) × (pipe_fds p f g s
        ≡ done (r, t, calls))
      × Counted extra t
unfolding pipe_fds
pipe_fds-returns extra p f g s a l lf lg = elim (fdalloc-cases p f s) [
  | inl q ↦
      let (t, calls, runs, c) = close_both-Counted extra f g s a lf lg in
      (none, t, calls, rw (pipe_fds, q, runs) refl, c)
  | inr (fd0, q, k, empty) ↦
      let t = set_fd p fd0 (some f) s in
      let c : Counted (bump extra g) t = put-Counted (bump extra g) f s p fd0 a lf l k empty in
      elim (fdalloc-cases p g t) [
        | inl r ↦
            let d = clear-Counted (bump extra g) t c p fd0 f l k (set_fd_self s p fd0 (some f)) in
            let (u, calls, runs, w) = close_both-Counted extra f g (set_fd p fd0 none t) d lf lg in
            (none, u, calls, rw (pipe_fds, q, r, runs) refl, w)
        | inr (fd1, r, j, clear) ↦ (
          some (fd0, fd1),
          set_fd p fd1 (some g) t,
          [],
          rw (pipe_fds, q, r) refl,
          put-Counted extra g t p fd1 c lg l j clear,
        )
      ]
]

pub sys_pipe-returns :
    (extra : ℕ → ℕ) (s : Files)
    → Counted extra s
    → (p : ℕ) → p < nproc
    → (page : Option ℕ)
    → (r : Option (ℕ × ℕ)) × (t : Files) × (calls : List Closing) × (sys_pipe p page s
        ≡ done (r, t, calls))
      × Counted extra t
unfolding sys_pipe
sys_pipe-returns extra s a p l page = elim (open_pipe-returns extra s page a) [
  | inl (t, calls, e, b) ↦ (none, t, calls, rw (sys_pipe, e) refl, b)
  | inr (f, g, t, e, lf, lg, b) ↦
      let (r, u, calls, q, c) = pipe_fds-returns extra p f g t b l lf lg in
      (r, u, calls, rw (sys_pipe, e) q, c)
]
