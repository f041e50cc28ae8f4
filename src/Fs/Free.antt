-- ===== src/Fs/Free.antt =====
-- How many blocks the bitmap (fs.c) has free.
use ele.Base.{
  ℕ, ◌+◌, ◌<◌, ◌≡◌, refl, ap, ◌∙◌, true, false, ◌||◌, arith, ◌==◌, if◌then◌else◌, total, total_zero,
  total-congr, total-change,
}
use ele.Fs.Bitmap.{used}
use ele.Fs.Blocks.{Allocated}
use ele.Fs.{Fs}

-- The blocks of the disk whose bit is clear.
unfoldable pub free : Fs → ℕ
free s = total s.size (λ i. if used s i then 0 else 1)

pub free-congr :
    (s t : Fs) → t.size ≡ s.size → ((i : ℕ) → i < s.size → used t i ≡ used s i) → free t ≡ free s
unfolding free
free-congr s t e h =
    ap (λ n. total n (λ i. if used t i then 0 else 1)) e
    ∙ total-congr s.size (λ i. if used t i then 0 else 1) (λ i. if used s i then 0 else 1)
        (λ i l. ap (λ b. if b then 0 else 1) (h i l))

pub free_none : (s : Fs) → ((i : ℕ) → i < s.size → used s i ≡ true) → free s ≡ 0
unfolding free
free_none s all = total_zero s.size (λ i. if used s i then 0 else 1) (λ i l. rw (all i l) refl)

-- `balloc` takes one.
pub free-Allocated :
    (s : Fs) (n : ℕ) (t : Fs)
    → n < s.size
    → used s n ≡ false
    → Allocated s n t
    → free s ≡ free t + 1
unfolding free
free-Allocated s n t l un a =
    let old : ℕ → ℕ = λ i. if used s i then 0 else 1 in
    let new : ℕ → ℕ = λ i. if n == i || used s i then 0 else 1 in
    let after : total t.size (λ i. if used t i then 0 else 1) ≡ total s.size new =
      ap (λ m. total m (λ i. if used t i then 0 else 1)) a.sizes
      ∙ total-congr s.size (λ i. if used t i then 0 else 1) new
          (λ i m. ap (λ b. if b then 0 else 1) (a.bits i m)) in
    let was : old n ≡ 1 = rw un refl in
    let is : new n ≡ 0 = ground arith in
    omega (arith, after, was, is, total-change s.size old new n l (λ j e. rw e refl))
