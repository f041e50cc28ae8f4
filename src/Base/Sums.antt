-- ===== src/Base/Sums.antt =====
-- Sums over an array, and what an assignment to one element does to them.
use Prim.Native.Nat.{ℕ, zero, suc, ◌+◌, ◌≤◌, ◌<◌}
use mathlib.Core.Path.{◌≡◌, refl, ap}
use mathlib.Core.Logic.{inl, inr}
use mathlib.Core.Bool.{false}
use native.Mathlib.Omega.{arith}
use ele.Base.Tests.{◌==◌, Bool-cases, ==_iff}

unfoldable pub total : ℕ → (ℕ → ℕ) → ℕ
total zero f = 0
total (suc n) f = total n f + f n

pub total-congr : (n : ℕ) (f g : ℕ → ℕ) → ((i : ℕ) → i < n → f i ≡ g i) → total n f ≡ total n g
unfolding total
total-congr zero f g h = refl
total-congr (suc n) f g h =
    omega (arith, total-congr n f g (λ i l. h i (omega (arith, l))), h n (omega arith))

-- Sums that differ at one index.
pub total-change :
    (n : ℕ) (f g : ℕ → ℕ) (i : ℕ)
    → i < n
    → ((j : ℕ) → (i == j) ≡ false → f j ≡ g j)
    → total n f + g i ≡ total n g + f i
unfolding total
total-change zero f g i l h = absurd (omega (arith, l))
total-change (suc n) f g i l h = elim (Bool-cases (i == n)) [
  | inl e ↦
      let same : i ≡ n = (==_iff i n).0 e in
      omega (
        arith,
        same,
        ap f same,
        ap g same,
        total-congr n f g (λ j m. h j (ground (arith, m, same))),
      )
  | inr e ↦ omega (arith, h n e, total-change n f g i (ground (arith, l, e)) h)
]

-- An element that counts is in the sum.
pub total_pos : (n : ℕ) (f : ℕ → ℕ) (i : ℕ) → i < n → f i ≤ total n f
unfolding total
total_pos zero f i l = absurd (omega (arith, l))
total_pos (suc n) f i l = elim (Bool-cases (i == n)) [
  | inl e ↦ omega (arith, ap f ((==_iff i n).0 e))
  | inr e ↦ omega (arith, total_pos n f i (ground (arith, l, e)))
]

pub total_zero : (n : ℕ) (f : ℕ → ℕ) → ((i : ℕ) → i < n → f i ≡ 0) → total n f ≡ 0
unfolding total
total_zero zero f h = refl
total_zero (suc n) f h =
    omega (arith, total_zero n f (λ i l. h i (omega (arith, l))), h n (omega arith))
