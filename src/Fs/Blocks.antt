-- ===== src/Fs/Blocks.antt =====
-- What `balloc` and `bfree` (fs.c) promise to those who hold blocks.
use ele.Strings.{memset}
use ele.Fs.{Fs, balloc, bzero, bpb, bblock, logged, bsize, memset, has_bit, bfree}
use ele.Base.{
  ℕ, ◌+◌, ◌/◌, ◌%◌, ◌<◌, ◌≡◌, refl, sym, ap, ◌∙◌, subst, ◌⊎◌, inl, inr, true, false, ◌&&◌, ◌||◌,
  not, arith, ◌==◌, Bool-cases, done, panic, store_ne, store_self, ==_iff,
}
use ele.Fs.Bitmap.{used, marked, cleared, used-marked, used-cleared, balloc_from-cases}
use ele.Strings.Fill.{memset-filled}

-- The blocks of the bitmap are on the disk and marked as used themselves.
abbrev pub IsReserved : Fs → Type 0
IsReserved s = (i : ℕ) → i < s.size → (bblock i s < s.size) × (used s (bblock i s) ≡ true)

-- What is left when `balloc` has returned block `n`: `n` is marked and zeroed, and nothing else changed.
pub record Allocated (s : Fs) (n : ℕ) (t : Fs) : Type 0 where
  pub sizes : t.size ≡ s.size
  pub starts : t.bmapstart ≡ s.bmapstart
  pub inodes : t.inodestart ≡ s.inodestart
  pub bits : (i : ℕ) → i < s.size → used t i ≡ (n == i || used s i)
  pub zeroed : (o : ℕ) → o < bsize → t.block n o ≡ 0
  pub others : (m : ℕ) → (n == m) ≡ false → (bblock n s == m) ≡ false → t.block m ≡ s.block m

pub unused-apart :
    (s : Fs) (n : ℕ)
    → IsReserved s
    → used s n ≡ false
    → (i : ℕ) → i < s.size
    → (n == bblock i s) ≡ false
unused-apart s n r u i m = elim (Bool-cases (n == bblock i s)) [
  | inr e ↦ e
  | inl e ↦ absurd (cc ((r i m).1, u, (==_iff _ _).0 e))
]

bzero-Allocated :
    (s : Fs) (n : ℕ)
    → n < s.size
    → used s n ≡ false
    → IsReserved s
    → Allocated s n (bzero n (marked n s))
unfolding bzero logged
bzero-Allocated s n l u r =
    let t = marked n s in
    let zeros = memset 0 0 bsize (t.block n) in
    record {
      sizes = refl;
      starts = refl;
      inodes = refl;
      bits = λ i m.
          ap (λ x. has_bit (i % bpb % 8) (x (i % bpb / 8)))
            (store_ne t.block n zeros (bblock i s) (unused-apart s n r u i m))
          ∙ used-marked n s i;
      zeroed = λ o m.
          ap (λ x. x o) (store_self t.block n zeros)
          ∙ ap (λ x. x o) (memset-filled 0 0 bsize (t.block n))
          ∙ ground (arith, m);
      others = λ m e h. store_ne t.block n zeros m e ∙ store_ne s.block (bblock n s) _ m h;
    }

-- In a file system whose bitmap is on the disk and marks its own blocks, `balloc` returns the first block that is not
-- used, marked and zeroed with nothing else changed, and panics exactly when all blocks are used.
pub balloc-first :
    (s : Fs)
    → IsReserved s
    → (((i : ℕ) → i < s.size → used s i ≡ true) × (balloc s ≡ panic))
      ⊎ ((n : ℕ) × (t : Fs) × (n < s.size)
          × (used s n ≡ false)
          × ((i : ℕ) → i < n → used s i ≡ true)
          × (balloc s ≡ done (n, t))
          × Allocated s n t)
unfolding balloc
balloc-first s r =
    elim (balloc_from-cases (s.size / bpb + 2) 0 s refl (omega arith) (omega arith)
      (λ i l. absurd (omega (arith, l)))) [
        | inl (full, e) ↦ inl (full, e)
        | inr (n, l, u, least, e) ↦
            inr (n, bzero n (marked n s), l, u, least, e, bzero-Allocated s n l u r)
      ]

pub balloc-Allocated :
    (s : Fs) (n : ℕ) (t : Fs)
    → IsReserved s
    → balloc s ≡ done (n, t)
    → (n < s.size) × (used s n ≡ false) × Allocated s n t
balloc-Allocated s n t r e = elim (balloc-first s r) [
  | inl (full, q) ↦ absurd (cc (e, q))
  | inr (m, v, l, un, least, q, a) ↦
      let same : m ≡ n = ground (arith, sym q ∙ e) in
      let after : v ≡ t = ground (arith, sym q ∙ e) in rw (sym same, sym after) (l, un, a)
]

-- A marked block is still marked.
pub still_used :
    {s : Fs} {n : ℕ} {t : Fs}
    → Allocated s n t
    → (i : ℕ) → i < s.size
    → used s i ≡ true
    → used t i ≡ true
still_used a i l h = a.bits i l ∙ ground (arith, h)

pub bfree-used : (n : ℕ) (s : Fs) → used s n ≡ true → bfree n s ≡ done (cleared n s)
unfolding bfree
bfree-used n s h = rw (bfree, h) refl

-- Freeing the block that `balloc` returned does not panic, and gives the bitmap back as it was.
bfree-balloc :
    (s : Fs) (n : ℕ) (t : Fs)
    → IsReserved s
    → balloc s ≡ done (n, t)
    → (u : Fs) × (bfree n t ≡ done u) × ((i : ℕ) → i < s.size → used u i ≡ used s i)
bfree-balloc s n t r e =
    let (l, un, a) = balloc-Allocated s n t r e in
    (
      cleared n t,
      bfree-used n t (ground (arith, a.bits n l)),
      λ i m.
          used-cleared n t i
          ∙ ap (λ x. not (n == i) && x) (a.bits i m)
          ∙ elim (Bool-cases (n == i)) [
            | inr q ↦ rw q refl
            | inl q ↦
                subst (λ j. (not (n == j) && (n == j || used s j)) ≡ used s j) ((==_iff n i).0 q)
                  (ground (arith, un))
          ],
    )
