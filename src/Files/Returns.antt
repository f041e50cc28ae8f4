-- ===== src/Files/Returns.antt =====
-- The calls of file.c and sysfile.c return and keep the reference counts.
use ele.Files.{
  Files, argfd, free_fd, free_file, nofile, File, nproc, sys_dup, sys_close, fdalloc, Closing,
  nothing, filedup, set_fd, open_inode, assign, filealloc, nfile, closing, fd_inode,
}
use ele.Base.{
  ℕ, zero, suc, ◌+◌, ◌-◌, ◌<◌, ◌≡◌, refl, ap, ◌∙◌, ◌⊎◌, inl, inr, Bool, false, ◌||◌, not, Option,
  none, some, arith, ltb, leb, ◌==◌, if◌then◌else◌, Bool-cases, Option-cases, done, pos, negsuc, ℤ,
  ==_iff, store_self,
}
use ele.Files.Counts.{Counted, bump}
use ele.Files.Moves.{
  gain-Counted, fresh-Counted, clear-Counted, put-Counted, drop-Counted, dropped, drop_calls,
  fields-Counted,
}

pub free_file-cases :
    (n f : ℕ) (file : ℕ → File)
    → (free_file n f file ≡ none)
      ⊎ ((g : ℕ) × (free_file n f file ≡ some g) × (g < f + n) × ((file g).ref ≡ 0))
unfolding free_file
free_file-cases zero f file = inl refl
free_file-cases (suc n) f file = elim (Bool-cases ((file f).ref == 0)) [
  | inl e ↦ inr (f, rw e refl, omega arith, (==_iff _ 0).0 e)
  | inr e ↦ elim (free_file-cases n (f + 1) file) [
    | inl q ↦ inl (rw e q)
    | inr (g, q, l, r) ↦ inr (g, rw e q, omega (arith, l), r)
  ]
]

pub free_fd-cases :
    (n fd : ℕ) (ofile : ℕ → Option ℕ)
    → (free_fd n fd ofile ≡ none)
      ⊎ ((j : ℕ) × (free_fd n fd ofile ≡ some j) × (j < fd + n) × (ofile j ≡ none))
unfolding free_fd
free_fd-cases zero fd ofile = inl refl
free_fd-cases (suc n) fd ofile = elim (Option-cases (ofile fd)) [
  | inl e ↦ inr (fd, rw (free_fd, e) refl, omega arith, e)
  | inr (f, e) ↦ elim (free_fd-cases n (fd + 1) ofile) [
    | inl q ↦ inl (rw (free_fd, e) q)
    | inr (g, q, l, r) ↦ inr (g, rw (free_fd, e) q, omega (arith, l), r)
  ]
]

argfd-cases :
    (p : ℕ) (n : ℤ) (s : Files)
    → (argfd p n s ≡ none)
      ⊎ ((fd : ℕ) × (f : ℕ) × (argfd p n s ≡ some (fd, f))
          × (fd < nofile)
          × (s.ofile p fd ≡ some f))
unfolding argfd
argfd-cases p (negsuc n) s = inl refl
argfd-cases p (pos fd) s = elim (Bool-cases (leb nofile fd)) [
  | inl e ↦ inl (rw e refl)
  | inr e ↦ elim (Option-cases (s.ofile p fd)) [
    | inl q ↦ inl (rw (argfd, e, q) refl)
    | inr (f, q) ↦ inr (fd, f, rw (argfd, e, q) refl, ground (arith, e), q)
  ]
]

-- A file that a descriptor names is in use.
pub named-alive :
    (extra : ℕ → ℕ) (s : Files)
    → Counted extra s
    → (p fd f : ℕ) → p < nproc
    → fd < nofile
    → s.ofile p fd ≡ some f
    → 0 < (s.file f).ref
unfolding set_fd
named-alive extra s a p fd f l m o =
    let b = clear-Counted extra s a p fd f l m o in
    omega (arith, b.counts f (a.named p fd f l m o), store_self extra f (extra f + 1))

module _ (extra : ℕ → ℕ) (s : Files) (a : Counted extra s) (p : ℕ) (l : p < nproc) where
  pub sys_dup-returns :
      (n : ℤ) → (v : ℤ) × (t : Files) × (sys_dup p n s ≡ done (v, t)) × Counted extra t
  unfolding sys_dup fdalloc filedup assign set_fd
  sys_dup-returns n = elim (argfd-cases p n s) [
    | inl e ↦ (negsuc 0, s, rw (sys_dup, e) refl, a)
    | inr (fd, f, e, m, o) ↦ elim (free_fd-cases nofile 0 (s.ofile p)) [
      | inl q ↦ (negsuc 0, s, rw (sys_dup, e, fdalloc, q) refl, a)
      | inr (j, q, k, r) ↦
          let alive = named-alive extra s a p fd f l m o in
          let busy : ltb (s.file f).ref 1 ≡ false = ground (arith, alive) in
          let more : File → File = λ x. record x { ref = x.ref + 1 } in
          (
            pos j,
            assign f more (set_fd p j (some f) s),
            rw (sys_dup, e, fdalloc, q, filedup, busy) refl,
            put-Counted extra f (assign f more s) p j (gain-Counted extra s a f alive)
                (a.named p fd f l m o) l k r,
          )
    ]
  ]

  pub sys_close-returns :
      (n : ℤ)
      → (v : ℤ) × (t : Files) × (calls : Closing) × (sys_close p n s ≡ done (v, t, calls))
        × Counted extra t
  unfolding sys_close
  sys_close-returns n = elim (argfd-cases p n s) [
    | inl e ↦ (negsuc 0, s, nothing, rw (sys_close, e) refl, a)
    | inr (fd, f, e, m, o) ↦
        let (runs, b) =
          drop-Counted extra f (set_fd p fd none s) (clear-Counted extra s a p fd f l m o)
            (a.named p fd f l m o) in
        (
          pos 0,
          dropped f (set_fd p fd none s),
          drop_calls f (set_fd p fd none s),
          rw (sys_close, e, runs) refl,
          b,
        )
  ]

  pub open_inode-returns :
      (ip : ℕ) (wronly rdwr : Bool)
      → (v : ℤ) × (t : Files) × (open_inode p ip wronly rdwr s ≡ done (v, t, nothing))
        × Counted extra t
  unfolding open_inode filealloc fdalloc assign set_fd
  open_inode-returns ip wronly rdwr = elim (free_file-cases nfile 0 s.file) [
    | inl e ↦ (negsuc 0, s, rw (open_inode, filealloc, e) refl, a)
    | inr (f, e, k, z) ↦
        let t = assign f (λ x. record x { ref = 1 }) s in
        let b : Counted (bump extra f) t = fresh-Counted extra s a f z in
        elim (free_fd-cases nofile 0 (s.ofile p)) [
          | inl q ↦
              let (runs, c) = drop-Counted extra f t b k in
              let quiet : drop_calls f t ≡ nothing =
                ap (λ x. if ltb 0 (x.ref - 1) then nothing else closing x)
                  (store_self s.file f (record (s.file f) { ref = 1 }))
                ∙ rw (a.blank f z) refl in
              (
                negsuc 0,
                dropped f t,
                rw (open_inode, filealloc, e, fdalloc, q, runs, quiet) refl,
                c,
              )
          | inr (j, q, h, r) ↦
              let describe : File → File = λ x. record x {
                type = fd_inode;
                ip = ip;
                off = 0;
                readable = not wronly;
                writable = wronly || rdwr;
              } in
              let u = set_fd p j (some f) t in
              let one : (u.file f).ref ≡ 1 =
                ap (λ x. x.ref) (store_self s.file f (record (s.file f) { ref = 1 })) in
              (
                pos j,
                assign f describe u,
                rw (open_inode, filealloc, e, fdalloc, q) refl,
                fields-Counted extra u (put-Counted extra f t p j b k l h r) f describe refl
                    (omega (arith, one)),
              )
        ]
  ]
