-- ===== src/Syscall/Fetch.antt =====
-- What the checks of syscall.c let through.
use ele.Syscall.{argptr, User, argint, wrap, find_nul, fetchstr}
use ele.Base.{
  ℕ, zero, suc, ◌+◌, ◌-◌, ◌≤◌, ◌<◌, ◌≡◌, refl, sym, ap, ◌∙◌, ◌≢◌, ◌↔◌, ◌⊎◌, inl, inr, false, ◌||◌,
  Option, none, some, arith, ltb, leb, ◌==◌, Bool-cases, Option-cases, pos, ==_iff,
}
use ele.Kalloc.{kern_base}

argument_unique : {o : Option ℕ} {i p : ℕ} → o ≡ some i → o ≡ some p → i ≡ p
argument_unique e h = ground (arith, sym e ∙ h)

-- For a process whose memory ends at `KERNBASE` or below, and a size that is an `int`: `argptr` gives
-- the argument exactly when it is a pointer in that memory behind which there are that many bytes.
pub argptr_iff :
    (n size p : ℕ) (u : User)
    → u.sz ≤ kern_base
    → size < 2147483648
    → (argptr n (pos size) u ≡ some p) ↔ ((argint n u ≡ some p) × (p < u.sz) × (p + size ≤ u.sz))
unfolding argptr
argptr_iff n size p u l m = elim (Option-cases (argint n u)) [
  | inl e ↦ (λ h. absurd (cc (rw (argptr, e) at h)), λ h. absurd (cc (h.0, e)))
  | inr (i, e) ↦ elim (Bool-cases (leb u.sz i || ltb u.sz (wrap (i + size)))) [
    | inl b ↦ (
      λ h. absurd (cc (rw (argptr, e, b) at h)),
      λ h. absurd (ground (arith, b, h.1, h.2, l, m, argument_unique e h.0)),
    )
    | inr b ↦ (
      λ h.
          let same : i ≡ p = ground (arith, rw (argptr, e, b) at h) in
          (e ∙ ap (λ x. some x) same, ground (arith, b, same), ground (arith, b, same, l, m)),
      λ h. rw (argptr, e, b) (ap (λ x. some x) (argument_unique e h.0)),
    )
  ]
]

no_nul :
    (s n : ℕ) (byte : ℕ → ℕ)
    → (byte s == 0) ≡ false
    → ((j : ℕ) → j + 1 < n → byte (s + 1 + j) ≢ 0)
    → (i : ℕ) → i < n
    → byte (s + i) ≢ 0
no_nul s n byte e all zero l h =
    let same : byte s ≡ byte (s + 0) = ap byte (omega arith) in absurd (ground (arith, same, h, e))
no_nul s n byte e all (suc i) l h = all i (omega (arith, l)) (ap byte (omega arith) ∙ h)

find_nul-cases :
    (n s len : ℕ) (byte : ℕ → ℕ)
    → ((find_nul n s len byte ≡ none) × ((i : ℕ) → i < n → byte (s + i) ≢ 0))
      ⊎ ((k : ℕ) × (find_nul n s len byte ≡ some (len + k))
          × (k < n)
          × (byte (s + k) ≡ 0)
          × ((i : ℕ) → i < k → byte (s + i) ≢ 0))
unfolding find_nul
find_nul-cases zero s len byte = inl (refl, λ i l. absurd (omega (arith, l)))
find_nul-cases (suc n) s len byte = elim (Bool-cases (byte s == 0)) [
  | inl e ↦ inr (
    0,
    rw e (ap (λ x. some x) (omega arith)),
    omega arith,
    ap byte (omega arith) ∙ (==_iff (byte s) 0).0 e,
    λ i l. absurd (omega (arith, l)),
  )
  | inr e ↦ elim (find_nul-cases n (s + 1) (len + 1) byte) [
    | inl (q, all) ↦
        inl (rw e q, λ i m. no_nul s (suc n) byte e (λ j h. all j (omega (arith, h))) i m)
    | inr (k, q, l, z, all) ↦ inr (
      k + 1,
      rw e (q ∙ ap (λ x. some x) (omega arith)),
      omega (arith, l),
      ap byte (omega arith) ∙ z,
      λ i m. no_nul s (k + 1) byte e (λ j h. all j (omega (arith, h))) i m,
    )
  ]
]

-- `fetchstr` gives the address and the length of the string when a NUL comes before the end of the
-- memory of the process, and -1 when the address is outside or no NUL comes.
pub fetchstr-text :
    (addr : ℕ) (u : User)
    → ((fetchstr addr u ≡ none) × ((i : ℕ) → addr + i < u.sz → u.byte (addr + i) ≢ 0))
      ⊎ ((n : ℕ) × (fetchstr addr u ≡ some (addr, n))
          × (addr + n < u.sz)
          × (u.byte (addr + n) ≡ 0)
          × ((i : ℕ) → i < n → u.byte (addr + i) ≢ 0))
unfolding fetchstr
fetchstr-text addr u = elim (Bool-cases (leb u.sz addr)) [
  | inl e ↦ inl (rw e refl, λ i l. absurd (ground (arith, e, l)))
  | inr e ↦ elim (find_nul-cases (u.sz - addr) addr 0 u.byte) [
    | inl (q, all) ↦ inl (rw (fetchstr, e, q) refl, λ i l. all i (ground (arith, e, l)))
    | inr (k, q, l, z, all) ↦ inr (
      k,
      rw (fetchstr, e, q) (ap (λ x. some (addr, x)) (omega arith)),
      ground (arith, e, l),
      z,
      all,
    )
  ]
]
