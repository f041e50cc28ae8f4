-- ===== src/Files/Moves.antt =====
-- The reference counts through each assignment of file.c and sysfile.c.
use ele.Files.{
  Files, fileclose, set_fd, assign, Closing, fd_none, nproc, nfile, nothing, closing, nofile, File,
}
use ele.Base.{
  ℕ, ◌+◌, ◌-◌, ◌<◌, ◌≡◌, refl, ap, inl, inr, false, none, some, arith, ltb, if◌then◌else◌,
  Bool-cases, done, store, Option, ◌==◌, store_self, ◌∙◌, store_ne,
}
use ele.Files.Counts.{hits, Counted, bump, references-set_fd}

module _ (extra : ℕ → ℕ) (s : Files) (a : Counted extra s) where
  -- One more reference to a file in use.
  pub gain-Counted :
      (f : ℕ)
      → 0 < (s.file f).ref
      → Counted (bump extra f) (assign f (λ x. record x { ref = x.ref + 1 }) s)
  unfolding assign store
  gain-Counted f l = record {
    counts = λ g m. ground (arith, a.counts g m);
    named = a.named;
    blank = λ g e. ground (arith, a.blank g, e);
  }

  -- A file that is allocated.
  pub fresh-Counted :
      (f : ℕ) → (s.file f).ref ≡ 0 → Counted (bump extra f) (assign f (λ x. record x { ref = 1 }) s)
  unfolding assign store
  fresh-Counted f e = record {
    counts = λ g m. ground (arith, a.counts g m, e);
    named = a.named;
    blank = λ g h. ground (arith, a.blank g, h);
  }

  -- Other fields of a file in use.
  pub fields-Counted :
      (f : ℕ) (g : File → File)
      → (g (s.file f)).ref ≡ (s.file f).ref
      → 0 < (s.file f).ref
      → Counted extra (assign f g s)
  unfolding assign store
  fields-Counted f g e l = record {
    counts = λ h m. ground (arith, a.counts h m, e);
    named = a.named;
    blank = λ h r. ground (arith, a.blank h, r, e, l);
  }

  -- A descriptor that is cleared leaves its reference to the call.
  pub clear-Counted :
      (p fd f : ℕ)
      → p < nproc
      → fd < nofile
      → s.ofile p fd ≡ some f
      → Counted (bump extra f) (set_fd p fd none s)
  unfolding set_fd store
  clear-Counted p fd f l m e = record {
    counts = λ g k.
        ground (arith, references-set_fd s.ofile p fd none g l m, a.counts g k, ap (hits g) e);
    named = λ q j g k h r. a.named q j g k h (ground (arith, r));
    blank = a.blank;
  }

-- A reference of the call goes to a descriptor.
pub put-Counted :
    (extra : ℕ → ℕ) (f : ℕ) (s : Files) (p fd : ℕ)
    → Counted (bump extra f) s
    → f < nfile
    → p < nproc
    → fd < nofile
    → s.ofile p fd ≡ none
    → Counted extra (set_fd p fd (some f) s)
unfolding set_fd store
put-Counted extra f s p fd a b l m e = record {
  counts = λ g k.
      ground (arith, references-set_fd s.ofile p fd (some f) g l m, a.counts g k, ap (hits g) e);
  named = λ q j g k h r. ground (arith, a.named q j g k h, r, b);
  blank = a.blank;
}

-- What `fileclose` leaves.
abbrev pub dropped : ℕ → Files → Files
dropped f s =
    if ltb 0 ((s.file f).ref - 1)
    then assign f (λ x. record x { ref = x.ref - 1 }) s
    else assign f (λ x. record x { ref = 0; type = fd_none }) s

abbrev pub drop_calls : ℕ → Files → Closing
drop_calls f s = if ltb 0 ((s.file f).ref - 1) then nothing else closing (s.file f)

-- A reference of the call is given up with `fileclose`, which does not panic.
pub drop-Counted :
    (extra : ℕ → ℕ) (f : ℕ) (s : Files)
    → Counted (bump extra f) s
    → f < nfile
    → (fileclose f s ≡ done (dropped f s, drop_calls f s)) × Counted extra (dropped f s)
unfolding fileclose assign store
drop-Counted extra f s a l =
    let held : ltb (s.file f).ref 1 ≡ false = ground (arith, a.counts f l) in
    elim (Bool-cases (ltb 0 ((s.file f).ref - 1))) [
      | inl e ↦ (
        rw (fileclose, held, e) refl,
        rw e (record {
          counts = λ g m. ground (arith, a.counts g m, held, e);
          named = a.named;
          blank = λ g h. ground (arith, a.blank g, h, e);
        }),
      )
      | inr e ↦ (
        rw (fileclose, held, e) refl,
        rw e (record {
          counts = λ g m. ground (arith, a.counts g m, held, e);
          named = a.named;
          blank = λ g h. ground (arith, a.blank g, h, e);
        }),
      )
    ]

pub fileclose-alive :
    (f : ℕ) (s : Files) → 0 < (s.file f).ref → fileclose f s ≡ done (dropped f s, drop_calls f s)
unfolding fileclose
fileclose-alive f s l =
    let busy : ltb (s.file f).ref 1 ≡ false = ground (arith, l) in
    elim (Bool-cases (ltb 0 ((s.file f).ref - 1))) [
      | inl e ↦ rw (fileclose, busy, e) refl
      | inr e ↦ rw (fileclose, busy, e) refl
    ]

-- The descriptors and the table do not meet.
pub dropped-set_fd :
    (f : ℕ) (s : Files) (p fd : ℕ) (v : Option ℕ)
    → dropped f (set_fd p fd v s) ≡ set_fd p fd v (dropped f s)
unfolding set_fd assign
dropped-set_fd f s p fd v = elim (Bool-cases (ltb 0 ((s.file f).ref - 1))) [
  | inl e ↦ rw e refl
  | inr e ↦ rw e refl
]

pub dropped-ofile : (f : ℕ) (s : Files) → (dropped f s).ofile ≡ s.ofile
unfolding assign
dropped-ofile f s = elim (Bool-cases (ltb 0 ((s.file f).ref - 1))) [
  | inl e ↦ rw e refl
  | inr e ↦ rw e refl
]

pub set_fd_self : (s : Files) (p fd : ℕ) (v : Option ℕ) → (set_fd p fd v s).ofile p fd ≡ v
unfolding set_fd
set_fd_self s p fd v =
    ap (λ r. r fd) (store_self s.ofile p (store (s.ofile p) fd v)) ∙ store_self (s.ofile p) fd v

pub set_fd_ne :
    (s : Files) (p fd : ℕ) (v : Option ℕ) (j : ℕ)
    → (fd == j) ≡ false
    → (set_fd p fd v s).ofile p j ≡ s.ofile p j
unfolding set_fd
set_fd_ne s p fd v j e =
    ap (λ r. r j) (store_self s.ofile p (store (s.ofile p) fd v)) ∙ store_ne (s.ofile p) fd v j e
