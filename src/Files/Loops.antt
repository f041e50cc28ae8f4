-- ===== src/Files/Loops.antt =====
-- The loops of `fork` and `exit` (proc.c) over the descriptors return and keep the reference counts.
use ele.Files.{close_fds, dup_fds, assign, filedup, set_fd, Files, nproc, nofile, File, Closing}
use ele.Base.{
  ℕ, zero, suc, ◌+◌, ◌≤◌, ◌<◌, ◌≡◌, refl, ap, ◌∙◌, subst, inl, inr, false, none, some, List, [],
  ◌∷◌, arith, ltb, ◌==◌, Bool-cases, Option-cases, done, ==_iff,
}
use ele.Files.Counts.{Counted}
use ele.Files.Moves.{
  gain-Counted, clear-Counted, put-Counted, drop-Counted, dropped, drop_calls, dropped-set_fd,
  set_fd_ne, fileclose-alive, set_fd_self, dropped-ofile,
}
use ele.Files.Returns.{named-alive}

pub dup_fds-returns :
    (n fd : ℕ) (extra : ℕ → ℕ) (s : Files) (p np : ℕ)
    → Counted extra s
    → p < nproc
    → np < nproc
    → (p == np) ≡ false
    → fd + n ≤ nofile
    → ((j : ℕ) → fd ≤ j → s.ofile np j ≡ none)
    → (t : Files) × (dup_fds n fd p np s ≡ done t) × Counted extra t
unfolding dup_fds filedup assign set_fd
dup_fds-returns zero fd extra s p np a l m ne b empty = (s, refl, a)
dup_fds-returns (suc n) fd extra s p np a l m ne b empty = elim (Option-cases (s.ofile p fd)) [
  | inl e ↦
      let (t, q, c) =
        dup_fds-returns n (fd + 1) extra s p np a l m ne (omega (arith, b))
          (λ j h. empty j (omega (arith, h))) in
      (t, rw (dup_fds, e) q, c)
  | inr (f, e) ↦
      let k : fd < nofile = omega (arith, b) in
      let alive = named-alive extra s a p fd f l k e in
      let busy : ltb (s.file f).ref 1 ≡ false = ground (arith, alive) in
      let more : File → File = λ x. record x { ref = x.ref + 1 } in
      let u = set_fd np fd (some f) (assign f more s) in
      let (t, q, c) =
        dup_fds-returns n (fd + 1) extra u p np
          (put-Counted extra f (assign f more s) np fd (gain-Counted extra s a f alive)
            (a.named p fd f l k e) m k (empty fd (omega arith)))
          l m ne (omega (arith, b))
          (λ j h.
            set_fd_ne (assign f more s) np fd (some f) j (ground (arith, h))
            ∙ empty j (omega (arith, h))) in
      (t, rw (dup_fds, e, filedup, busy) q, c)
]

below_fd :
    (fd n : ℕ) (t : Files) (p : ℕ)
    → t.ofile p fd ≡ none
    → ((j : ℕ) → fd + 1 ≤ j → j < fd + 1 + n → t.ofile p j ≡ none)
    → (j : ℕ) → fd ≤ j
    → j < fd + suc n
    → t.ofile p j ≡ none
below_fd fd n t p e below j h k = elim (Bool-cases (fd == j)) [
  | inl q ↦ subst (λ i. t.ofile p i ≡ none) ((==_iff fd j).0 q) e
  | inr q ↦ below j (ground (arith, h, q)) (omega (arith, k))
]

pub close_fds-returns :
    (n fd : ℕ) (extra : ℕ → ℕ) (s : Files) (p : ℕ)
    → Counted extra s
    → p < nproc
    → fd + n ≤ nofile
    → (t : Files) × (calls : List Closing) × (close_fds n fd p s ≡ done (t, calls))
      × Counted extra t
      × ((j : ℕ) → fd ≤ j → j < fd + n → t.ofile p j ≡ none)
      × ((j : ℕ) → j < fd → t.ofile p j ≡ s.ofile p j)
unfolding close_fds assign set_fd
close_fds-returns zero fd extra s p a l b =
    (s, [], refl, a, λ j h k. absurd (omega (arith, h, k)), λ j h. refl)
close_fds-returns (suc n) fd extra s p a l b = elim (Option-cases (s.ofile p fd)) [
  | inl e ↦
      let (t, calls, q, c, below, kept) =
        close_fds-returns n (fd + 1) extra s p a l (omega (arith, b)) in
      (
        t,
        calls,
        rw (close_fds, e) q,
        c,
        below_fd fd n t p (kept fd (omega arith) ∙ e) below,
        λ j h. kept j (omega (arith, h)),
      )
  | inr (f, e) ↦
      let k : fd < nofile = omega (arith, b) in
      let (runs, c) =
        drop-Counted extra f (set_fd p fd none s) (clear-Counted extra s a p fd f l k e)
          (a.named p fd f l k e) in
      let s' = set_fd p fd none (dropped f s) in
      let a' = subst (Counted extra) (dropped-set_fd f s p fd none) c in
      let (t, calls, q, c, below, kept) =
        close_fds-returns n (fd + 1) extra s' p a' l (omega (arith, b)) in
      let first = fileclose-alive f s (named-alive extra s a p fd f l k e) in
      (
        t,
        drop_calls f s ∷ calls,
        rw (close_fds, e, first, q) refl,
        c,
        below_fd fd n t p (kept fd (omega arith) ∙ set_fd_self (dropped f s) p fd none) below,
        λ j h.
            kept j (omega (arith, h))
            ∙ set_fd_ne (dropped f s) p fd none j (ground (arith, h))
            ∙ ap (λ o. o p j) (dropped-ofile f s),
      )
]
