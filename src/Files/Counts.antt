-- ===== src/Files/Counts.antt =====
-- The reference counts of file.c against the descriptors (sysfile.c): each assignment.
use ele.Files.{Files, nproc, nofile, nfile, fd_none}
use ele.Base.{
  total, total-change, ℕ, ◌+◌, ◌<◌, ◌≡◌, ap, Option, none, some, arith, ◌==◌, if◌then◌else◌, store,
  store_ne, store_self,
}

abbrev pub hits : ℕ → Option ℕ → ℕ
hits f none = 0
hits f (some g) = if g == f then 1 else 0

-- The descriptors that name file `f`.
abbrev pub references : (ℕ → ℕ → Option ℕ) → ℕ → ℕ
references ofile f = total nproc (λ p. total nofile (λ fd. hits f (ofile p fd)))

-- `extra` references beside those of the descriptors are in the hands of a call under way.
pub record Counted (extra : ℕ → ℕ) (s : Files) : Type 0 where
  pub counts : (f : ℕ) → f < nfile → (s.file f).ref ≡ references s.ofile f + extra f
  pub named : (p fd f : ℕ) → p < nproc → fd < nofile → s.ofile p fd ≡ some f → f < nfile
  pub blank : (f : ℕ) → (s.file f).ref ≡ 0 → (s.file f).type ≡ fd_none

abbrev pub bump : (ℕ → ℕ) → ℕ → ℕ → ℕ
bump extra f = store extra f (extra f + 1)

pub references-set_fd :
    (ofile : ℕ → ℕ → Option ℕ) (p fd : ℕ) (v : Option ℕ) (f : ℕ)
    → p < nproc
    → fd < nofile
    → references (store ofile p (store (ofile p) fd v)) f + hits f (ofile p fd)
      ≡ references ofile f + hits f v
references-set_fd ofile p fd v f l m =
    let row = store (ofile p) fd v in
    let inner : total nofile (λ j. hits f (row j)) + hits f (ofile p fd)
        ≡ total nofile (λ j. hits f (ofile p j)) + hits f (row fd) =
      total-change nofile (λ j. hits f (row j)) (λ j. hits f (ofile p j)) fd m
        (λ j e. ap (hits f) (store_ne (ofile p) fd v j e)) in
    let outer =
      total-change nproc (λ q. total nofile (λ j. hits f (store ofile p row q j)))
        (λ q. total nofile (λ j. hits f (ofile q j))) p l
        (λ q e. ap (λ r. total nofile (λ j. hits f (r j))) (store_ne ofile p row q e)) in
    let at_p = ap (λ r. total nofile (λ j. hits f (r j))) (store_self ofile p row) in
    let at_fd = ap (hits f) (store_self (ofile p) fd v) in omega (arith, inner, outer, at_p, at_fd)
