-- ===== src/Files/Used.antt =====
-- The table of open files (file.c, sysfile.c) under any calls of the processes.
use ele.Files.{
  Files, sys_close, fd_none, argfd, nfile, nproc, nofile, set_fd, sys_dup, Closing, assign, closing,
  open_inode, nothing, dup_fds, close_fds, File, fd_pipe, pipeclose, fd_inode, iput,
}
use ele.Base.{
  total_zero, total, ℕ, ◌+◌, ◌-◌, ◌<◌, ◌≡◌, refl, sym, ap, ◌∙◌, subst, ◌⊎◌, inl, inr, Bool, false,
  none, some, List, arith, ltb, leb, ◌==◌, Bool-cases, done, pos, ℤ, store_self, Option,
}
use ele.Files.Counts.{references, Counted, hits}
use ele.Files.Moves.{dropped, drop_calls, fileclose-alive, set_fd_self, dropped-ofile}
use ele.Files.Returns.{sys_dup-returns, sys_close-returns, open_inode-returns, named-alive}
use ele.Files.Pipes.{sys_pipe}
use ele.Files.PipeReturns.{sys_pipe-returns}
use ele.Files.Loops.{dup_fds-returns, close_fds-returns}

-- What the processes call, each with a process number in the table.
pub data Call (s : Files) : Files → Type 0 where
  dups : {t : Files} {v : ℤ} (p : ℕ) (n : ℤ) → p < nproc → sys_dup p n s ≡ done (v, t) → Call s t
  closes :
      {t : Files} {v : ℤ} {calls : Closing} (p : ℕ) (n : ℤ)
      → p < nproc
      → sys_close p n s ≡ done (v, t, calls)
      → Call s t
  opens :
      {t : Files} {v : ℤ} {calls : Closing} (p ip : ℕ) (wronly rdwr : Bool)
      → p < nproc
      → open_inode p ip wronly rdwr s ≡ done (v, t, calls)
      → Call s t
  pipes :
      {t : Files} {r : Option (ℕ × ℕ)} {calls : List Closing} (p : ℕ) (page : Option ℕ)
      → p < nproc
      → sys_pipe p page s ≡ done (r, t, calls)
      → Call s t
  -- The new process has no descriptors before.
  forks :
      {t : Files} (p np : ℕ)
      → p < nproc
      → np < nproc
      → (p == np) ≡ false
      → ((j : ℕ) → s.ofile np j ≡ none)
      → dup_fds nofile 0 p np s ≡ done t
      → Call s t
  exits :
      {t : Files} {calls : List Closing} (p : ℕ)
      → p < nproc
      → close_fds nofile 0 p s ≡ done (t, calls)
      → Call s t

pub data Calls (s : Files) : Files → Type 0 where
  here : Calls s s
  next : {t u : Files} → Calls s t → Call t u → Calls s u

abbrev none_extra : ℕ → ℕ
none_extra f = 0

Call-Counted : {s t : Files} → Call s t → Counted none_extra s → Counted none_extra t
Call-Counted {s} {t} (dups p n l e) a =
    let (v, u, q, c) = sys_dup-returns none_extra s a p l n in
    subst (Counted none_extra) (ground (arith, sym q ∙ e)) c
Call-Counted {s} {t} (closes p n l e) a =
    let (v, u, calls, q, c) = sys_close-returns none_extra s a p l n in
    subst (Counted none_extra) (ground (arith, sym q ∙ e)) c
Call-Counted {s} {t} (opens p ip w r l e) a =
    let (v, u, q, c) = open_inode-returns none_extra s a p l ip w r in
    subst (Counted none_extra) (ground (arith, sym q ∙ e)) c
Call-Counted {s} {t} (pipes p page l e) a =
    let (r, u, calls, q, c) = sys_pipe-returns none_extra s a p l page in
    subst (Counted none_extra) (ground (arith, sym q ∙ e)) c
Call-Counted {s} {t} (forks p np l m ne empty e) a =
    let (u, q, c) =
      dup_fds-returns nofile 0 none_extra s p np a l m ne (omega arith) (λ j h. empty j) in
    subst (Counted none_extra) (ground (arith, sym q ∙ e)) c
Call-Counted {s} {t} (exits p l e) a =
    let (u, calls, q, c, below, kept) =
      close_fds-returns nofile 0 none_extra s p a l (omega arith) in
    subst (Counted none_extra) (ground (arith, sym q ∙ e)) c

-- The zeroed tables.
abbrev pub IsZeroed : Files → Type 0
IsZeroed s =
    ((f : ℕ) → ((s.file f).ref ≡ 0) × ((s.file f).type ≡ fd_none))
    × ((p fd : ℕ) → s.ofile p fd ≡ none)

references-IsZeroed : (s : Files) → IsZeroed s → (f : ℕ) → references s.ofile f + none_extra f ≡ 0
references-IsZeroed s z f = omega (
  arith,
  total_zero nproc (λ p. total nofile (λ fd. hits f (s.ofile p fd)))
      (λ p l. total_zero nofile (λ fd. hits f (s.ofile p fd)) (λ fd m. ap (hits f) (z.1 p fd))),
)

Calls-Counted : {s t : Files} → IsZeroed s → Calls s t → Counted none_extra t
Calls-Counted {s} z here = record {
  counts = λ f l. (z.0 f).0 ∙ sym (references-IsZeroed s z f);
  named = λ p fd f l m e. absurd (cc (e, z.1 p fd));
  blank = λ f e. (z.0 f).1;
}
Calls-Counted z (next r x) = Call-Counted x (Calls-Counted z r)

-- Whatever calls of `sys_dup`, `sys_close`, `sys_pipe`, `sys_open` from its `filealloc` on, `fork`
-- and `exit` are made from zeroed tables on, the reference count of each file is the number of
-- descriptors that name it.
pub Calls-counts :
    (s : Files)
    → IsZeroed s
    → {t : Files} → Calls s t
    → (f : ℕ) → f < nfile
    → (t.file f).ref ≡ references t.ofile f
Calls-counts s z r f l = omega (arith, (Calls-Counted z r).counts f l)

-- The call by which the last reference to a file is given up.
abbrev pub GivenUp : File → Closing → Type 0
GivenUp x calls =
    (x.type ≡ fd_pipe → calls ≡ pipeclose x.pipe x.writable)
    × (x.type ≡ fd_inode → calls ≡ iput x.ip)
    × (x.type ≡ fd_none → calls ≡ nothing)

closing-GivenUp : (x : File) → GivenUp x (closing x)
closing-GivenUp x = (λ e. rw e refl, λ e. rw e refl, λ e. rw e refl)

-- After calls of `sys_dup`, `sys_close`, `sys_pipe`, `sys_open` from its `filealloc` on, `fork` and
-- `exit` from zeroed tables on, `sys_close` of a descriptor in use returns 0 and clears it. When no
-- other descriptor names the file, then the entry is free, and the next call is `pipeclose` of the
-- pipe and the end for a file of type `FD_PIPE`, `iput` of the inode for one of type `FD_INODE`,
-- and none otherwise. When another one does, then the file stays open, with a reference less, and
-- no call is made.
pub sys_close-last :
    (s : Files)
    → IsZeroed s
    → {t : Files} → Calls s t
    → (p fd f : ℕ) → p < nproc
    → fd < nofile
    → t.ofile p fd ≡ some f
    → (u : Files) × (calls : Closing) × (sys_close p (pos fd) t ≡ done (pos 0, u, calls))
      × (u.ofile p fd ≡ none)
      × (((references t.ofile f ≡ 1) × GivenUp (t.file f) calls × ((u.file f).ref ≡ 0))
          ⊎ ((1 < references t.ofile f)
              × (calls ≡ nothing)
              × (u.file f ≡ record (t.file f) { ref = (t.file f).ref - 1 })))
unfolding sys_close argfd set_fd assign
sys_close-last s z {t} r p fd f l m e =
    let a = Calls-Counted z r in
    let alive = named-alive none_extra t a p fd f l m e in
    let count = a.counts f (a.named p fd f l m e) in
    let small : leb nofile fd ≡ false = ground (arith, m) in
    let runs = fileclose-alive f (set_fd p fd none t) alive in
    (
      dropped f (set_fd p fd none t),
      drop_calls f t,
      rw (sys_close, argfd, small, e, runs) refl,
      ap (λ o. o p fd) (dropped-ofile f (set_fd p fd none t)) ∙ set_fd_self t p fd none,
      elim (Bool-cases (ltb 0 ((t.file f).ref - 1))) [
        | inl q ↦ inr (ground (arith, count, q), rw q refl, rw q (store_self t.file f _))
        | inr q ↦ inl (
          ground (arith, count, q, alive),
          rw q (closing-GivenUp (t.file f)),
          rw q (ap (λ x. x.ref) (store_self t.file f _)),
        )
      ],
    )

-- Whatever calls of `sys_dup`, `sys_close`, `sys_pipe`, `sys_open` from its `filealloc` on, `fork`
-- and `exit` are made from zeroed tables on, the functions `sys_dup`, `sys_close`, `sys_pipe`,
-- `sys_open` from its `filealloc` on, and the closing of all files in `exit` return and do not
-- panic.
pub Calls-return :
    (s : Files)
    → IsZeroed s
    → {t : Files} → Calls s t
    → (p : ℕ) → p < nproc
    → (n : ℤ) (page : Option ℕ) (ip : ℕ) (wronly rdwr : Bool)
    → ((v : ℤ) × (u : Files) × (sys_dup p n t ≡ done (v, u)))
      × ((v : ℤ) × (u : Files) × (calls : Closing) × (sys_close p n t ≡ done (v, u, calls)))
      × ((r : Option (ℕ × ℕ)) × (u : Files) × (calls : List Closing) × (sys_pipe p page t
            ≡ done (r, u, calls)))
      × ((v : ℤ) × (u : Files) × (open_inode p ip wronly rdwr t ≡ done (v, u, nothing)))
      × ((u : Files) × (calls : List Closing) × (close_fds nofile 0 p t ≡ done (u, calls)))
Calls-return s z {t} r p l n page ip wronly rdwr =
    let a = Calls-Counted z r in
    let (v, u, q, c) = sys_dup-returns none_extra t a p l n in
    let (w, x, calls, y, d) = sys_close-returns none_extra t a p l n in
    let (d0, d1, d2, d3, d4) = sys_pipe-returns none_extra t a p l page in
    let (v', u', q', c') = open_inode-returns none_extra t a p l ip wronly rdwr in
    let (x', calls', y', d', below, kept) =
      close_fds-returns nofile 0 none_extra t p a l (omega arith) in
    ((v, u, q), (w, x, calls, y), (d0, d1, d2, d3), (v', u', q'), (x', calls', y'))
