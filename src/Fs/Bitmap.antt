-- ===== src/Fs/Bitmap.antt =====
-- Which block `balloc` (fs.c) returns, and what it and `bfree` do to the bitmap.
use ele.Fs.Bits.{has_bit-set_bit, has_bit-clear_bit}
use ele.Strings.{Bytes}
use ele.Fs.{Fs, free_bit, has_bit, bpb, bblock, clear_bit, set_bit, logged, balloc_from, bzero}
use ele.Base.{
  ℕ, zero, suc, ◌+◌, ◌/◌, ◌%◌, ◌≤◌, ◌<◌, ◌≡◌, refl, subst, ◌⊎◌, inl, inr, Bool, true, false, none,
  some, arith, ltb, ◌==◌, Bool-cases, ltb→lt, ==_iff, store, ap, store_ne, ◌∙◌, sym, store_self,
  ap₂, not, ◌||◌, ◌&&◌, ◌*◌, panic, done, ◌-◌,
}

-- The bit of block `n` in the bitmap.
abbrev pub used : Fs → ℕ → Bool
used s n = has_bit (n % bpb % 8) (s.block (bblock n s) (n % bpb / 8))

free_bit-cases :
    (n bi b size : ℕ) (bytes : Bytes)
    → ((free_bit n bi b size bytes ≡ none)
        × ((i : ℕ) → bi ≤ i → i < bi + n → b + i < size → has_bit (i % 8) (bytes (i / 8)) ≡ true))
      ⊎ ((j : ℕ) × (free_bit n bi b size bytes ≡ some j)
          × (bi ≤ j)
          × (j < bi + n)
          × (b + j < size)
          × (has_bit (j % 8) (bytes (j / 8)) ≡ false)
          × ((i : ℕ) → bi ≤ i → i < j → has_bit (i % 8) (bytes (i / 8)) ≡ true))
unfolding free_bit
free_bit-cases zero bi b size bytes = inl (refl, λ i l m. absurd (omega (arith, l, m)))
free_bit-cases (suc n) bi b size bytes = elim (Bool-cases (ltb (b + bi) size)) [
  | inr e ↦ inl (rw e refl, λ i l m k. absurd (ground (arith, l, k, e)))
  | inl e ↦ elim (Bool-cases (has_bit (bi % 8) (bytes (bi / 8)))) [
    | inr h ↦ inr (
      bi,
      rw (e, h) refl,
      omega arith,
      omega arith,
      ltb→lt _ _ e,
      h,
      λ i l m. absurd (omega (arith, l, m)),
    )
    | inl h ↦ elim (free_bit-cases n (bi + 1) b size bytes) [
      | inl (q, all) ↦ inl (
        rw (e, h) q,
        λ i l m k. elim (Bool-cases (bi == i)) [
          | inl r ↦ subst (λ x. has_bit (x % 8) (bytes (x / 8)) ≡ true) ((==_iff bi i).0 r) h
          | inr r ↦ all i (ground (arith, l, r)) (omega (arith, m)) k
        ],
      )
      | inr (j, q, l, m, k, f, all) ↦ inr (
        j,
        rw (e, h) q,
        omega (arith, l),
        omega (arith, m),
        k,
        f,
        λ i l m. elim (Bool-cases (bi == i)) [
          | inl r ↦ subst (λ x. has_bit (x % 8) (bytes (x / 8)) ≡ true) ((==_iff bi i).0 r) h
          | inr r ↦ all i (ground (arith, l, r)) m
        ],
      )
    ]
  ]
]

-- A change of the byte with the bit of block `n`.
abbrev edit : (n : ℕ) → (ℕ → ℕ → ℕ) → Fs → Fs
edit n g s =
    let bytes = s.block (bblock n s) in
    logged (bblock n s) (store bytes (n % bpb / 8) (g (n % bpb % 8) (bytes (n % bpb / 8)))) s

abbrev pub marked : (n : ℕ) → Fs → Fs
marked n s = edit n set_bit s

abbrev pub cleared : (n : ℕ) → Fs → Fs
cleared n s = edit n clear_bit s

module _ (g : ℕ → ℕ → ℕ) (f : Bool → Bool → Bool) where
  used-edit :
      (n : ℕ) (s : Fs)
      → ((j k byte : ℕ) → has_bit j (g k byte) ≡ f (k == j) (has_bit j byte))
      → ((x : Bool) → f false x ≡ x)
      → (i : ℕ) → used (edit n g s) i ≡ f (n == i) (used s i)
  unfolding logged
  used-edit n s bit same i =
      let bytes = s.block (bblock n s) in
      let bytes' = store bytes (n % bpb / 8) (g (n % bpb % 8) (bytes (n % bpb / 8))) in
      elim (Bool-cases (bblock n s == bblock i s)) [
        | inr e ↦
            let ne : (n == i) ≡ false = ground (arith, e) in
            ap (λ x. has_bit (i % bpb % 8) (x (i % bpb / 8)))
              (store_ne s.block (bblock n s) bytes' (bblock i s) e)
            ∙ rw ne (sym (same (used s i)))
        | inl e ↦
            let block : bblock n s ≡ bblock i s = (==_iff _ _).0 e in
            let there : store s.block (bblock n s) bytes' (bblock i s) ≡ bytes' =
              subst (λ x. store s.block (bblock n s) bytes' x ≡ bytes') block
                (store_self s.block (bblock n s) bytes') in
            ap (λ x. has_bit (i % bpb % 8) (x (i % bpb / 8))) there
            ∙ elim (Bool-cases (n % bpb / 8 == i % bpb / 8)) [
              | inr h ↦
                  let ne : (n == i) ≡ false = ground (arith, h) in
                  ap (has_bit (i % bpb % 8)) (store_ne bytes (n % bpb / 8) _ (i % bpb / 8) h)
                  ∙ ap (λ x. has_bit (i % bpb % 8) (s.block x (i % bpb / 8))) block
                  ∙ rw ne (sym (same (used s i)))
              | inl h ↦
                  let byte : n % bpb / 8 ≡ i % bpb / 8 = (==_iff _ _).0 h in
                  let bits : (n % bpb % 8 == i % bpb % 8) ≡ (n == i) =
                    ground (arith, block, byte) in
                  let kept : has_bit (i % bpb % 8) (bytes (n % bpb / 8)) ≡ used s i =
                    ap (λ x. has_bit (i % bpb % 8) (bytes x)) byte
                    ∙ ap (λ x. has_bit (i % bpb % 8) (s.block x (i % bpb / 8))) block in
                  ap (λ x. has_bit (i % bpb % 8) (bytes' x)) (sym byte)
                  ∙ ap (has_bit (i % bpb % 8)) (store_self bytes (n % bpb / 8) _)
                  ∙ bit (i % bpb % 8) (n % bpb % 8) (bytes (n % bpb / 8))
                  ∙ ap₂ f bits kept
            ]
      ]

pub used-marked : (n : ℕ) (s : Fs) (i : ℕ) → used (marked n s) i ≡ (n == i || used s i)
used-marked n s i = used-edit set_bit (λ x y. x || y) n s has_bit-set_bit (λ x. refl) i

pub used-cleared : (n : ℕ) (s : Fs) (i : ℕ) → used (cleared n s) i ≡ (not (n == i) && used s i)
used-cleared n s i = used-edit clear_bit (λ x y. not x && y) n s has_bit-clear_bit (λ x. refl) i

used_at :
    (s : Fs) (b j : ℕ)
    → b % bpb ≡ 0
    → j < bpb
    → used s (b + j) ≡ has_bit (j % 8) (s.block (bblock b s) (j / 8))
used_at s b j aligned l =
    ap₂ (λ x y. has_bit (y % 8) (s.block x (y / 8))) (omega (arith, aligned, l))
      (omega (arith, aligned, l))

-- The blocks below the first `k` of a bitmap block are used.
used_below :
    (s : Fs) (b k : ℕ)
    → b % bpb ≡ 0
    → k ≤ bpb
    → ((i : ℕ) → i < b → i < s.size → used s i ≡ true)
    → ((i : ℕ) → i < k → b + i < s.size → has_bit (i % 8) (s.block (bblock b s) (i / 8)) ≡ true)
    → (i : ℕ) → i < b + k
    → i < s.size
    → used s i ≡ true
used_below s b k aligned h all full i l m = elim (Bool-cases (ltb i b)) [
  | inl e ↦ all i (ltb→lt i b e) m
  | inr e ↦
      let sum : b + (i - b) ≡ i = ground (arith, e) in
      subst (λ x. used s x ≡ true) sum
        (used_at s b (i - b) aligned (ground (arith, l, h, e))
          ∙ full (i - b) (ground (arith, l, e)) (ground (arith, m, e)))
]

pub balloc_from-cases :
    (fuel b : ℕ) (s : Fs)
    → b % bpb ≡ 0
    → b < s.size + bpb
    → s.size + bpb ≤ b + fuel * bpb
    → ((i : ℕ) → i < b → i < s.size → used s i ≡ true)
    → (((i : ℕ) → i < s.size → used s i ≡ true) × (balloc_from fuel b s ≡ panic))
      ⊎ ((n : ℕ) × (n < s.size)
          × (used s n ≡ false)
          × ((i : ℕ) → i < n → used s i ≡ true)
          × (balloc_from fuel b s ≡ done (n, bzero n (marked n s))))
unfolding balloc_from
balloc_from-cases zero b s aligned l m all = absurd (omega (arith, l, m))
balloc_from-cases (suc fuel) b s aligned l m all = elim (Bool-cases (ltb b s.size)) [
  | inr e ↦ inl (λ i k. all i (ground (arith, e, k)) k, rw (balloc_from, e) refl)
  | inl e ↦ elim (free_bit-cases bpb 0 b s.size (s.block (bblock b s))) [
    | inl (q, full) ↦
        elim (balloc_from-cases fuel (b + bpb) s (omega (arith, aligned)) (ground (arith, e))
          (omega (arith, m))
          (used_below s b bpb aligned (omega arith) all (λ i l. full i (omega arith) l))) [
            | inl (p, r) ↦ inl (p, rw (balloc_from, e, q) r)
            | inr (n, k, u, p, r) ↦ inr (n, k, u, p, rw (balloc_from, e, q) r)
          ]
    | inr (j, q, k, h, z, u, full) ↦ inr (
      b + j,
      z,
      used_at s b j aligned h ∙ u,
      λ i l.
          used_below s b j aligned (omega (arith, h)) all (λ i l x. full i (omega arith) l) i l
            (omega (arith, l, z)),
      rw (balloc_from, e, q)
          (ap₂
            (λ x y. done (
              b + j,
              bzero (b + j)
                  (logged x (store (s.block x) (y / 8) (set_bit (y % 8) (s.block x (y / 8)))) s),
            ))
            (omega (arith, aligned, h)) (omega (arith, aligned, h))),
    )
  ]
]
