-- ===== src/Base/Counting.antt =====
-- How many elements of a list pass a test that may depend on their index.
use Prim.Native.Nat.{ℕ, zero, suc, ◌+◌, ◌≤◌, ◌<◌}
use mathlib.Core.Path.{◌≡◌, refl, sym, ◌∙◌}
use mathlib.Core.Bool.{Bool, true, false}
use mathlib.Core.List.{List, [], ◌∷◌, map}
use mathlib.Core.Option.{some}
use native.Mathlib.Omega.{arith}
use ele.Base.Tests.{◌==◌, if◌then◌else◌}
use ele.Base.Lists.{get_elem?, get_or, update}

module _ {ℓ} {A : Type ℓ} where
  unfoldable pub count_at : (ℕ → A → Bool) → List A → ℕ
  count_at p [] = 0
  count_at p (x ∷ xs) = (if p 0 x then 1 else 0) + count_at (λ i. p (suc i)) xs

  -- Another test that passes less.
  pub count_at-le :
      (p q : ℕ → A → Bool) (xs : List A)
      → ((i : ℕ) (x : A) → q i x ≡ true → p i x ≡ true)
      → count_at q xs ≤ count_at p xs
  unfolding count_at
  count_at-le p q [] h = omega arith
  count_at-le p q (x ∷ xs) h =
      ground (arith, h 0 x, count_at-le (λ i. p (suc i)) (λ i. q (suc i)) xs (λ i. h (suc i)))

  pub count_at-map :
      (p : ℕ → A → Bool) (xs : List A) (f : A → A)
      → ((i : ℕ) (x : A) → p i (f x) ≡ p i x)
      → count_at p (map f xs) ≡ count_at p xs
  unfolding count_at
  count_at-map p [] f h = refl
  count_at-map p (x ∷ xs) f h =
      ground (arith, h 0 x, count_at-map (λ i. p (suc i)) xs f (λ i. h (suc i)))

  -- An assignment that makes no element pass anew does not raise the count.
  pub count_at-update-le :
      (p : ℕ → A → Bool) (xs : List A) (i : ℕ) (f : A → A)
      → ((x : A) → get_elem? xs i ≡ some x → p i (f x) ≡ true → p i x ≡ true)
      → count_at p (update xs i f) ≤ count_at p xs
  unfolding update count_at
  count_at-update-le p [] i f h = omega arith
  count_at-update-le p (y ∷ xs) zero f h = ground (arith, h y refl)
  count_at-update-le p (y ∷ xs) (suc i) f h =
      ground (arith, count_at-update-le (λ j. p (suc j)) xs i f h)

  pub count_at-update-le-suc :
      (p : ℕ → A → Bool) (xs : List A) (i : ℕ) (f : A → A)
      → count_at p (update xs i f) ≤ count_at p xs + 1
  unfolding update count_at
  count_at-update-le-suc p [] i f = omega arith
  count_at-update-le-suc p (y ∷ xs) zero f = ground arith
  count_at-update-le-suc p (y ∷ xs) (suc i) f =
      ground (arith, count_at-update-le-suc (λ j. p (suc j)) xs i f)

  tail_le :
      (p q : ℕ → A → Bool) (xs : List A)
      → ((j : ℕ) (x : A) → (0 == j) ≡ false → q j x ≡ p j x)
      → count_at (λ i. q (suc i)) xs ≤ count_at (λ i. p (suc i)) xs
  tail_le p q xs s =
      count_at-le (λ i. p (suc i)) (λ i. q (suc i)) xs
        (λ i x h. sym (s (suc i) x (ground arith)) ∙ h)

  -- Where an element passes, a test that fails at it alone counts one less.
  pub count_at-drop :
      (p q : ℕ → A → Bool) (xs : List A) (i : ℕ) (d : A)
      → p i d ≡ false
      → p i (get_or xs i d) ≡ true
      → ((x : A) → q i x ≡ false)
      → ((j : ℕ) (x : A) → (i == j) ≡ false → q j x ≡ p j x)
      → count_at q xs + 1 ≤ count_at p xs
  unfolding count_at
  count_at-drop p q [] i d n h e s = cc
  count_at-drop p q (y ∷ xs) zero d n h e s = ground (arith, h, e y, tail_le p q xs s)
  count_at-drop p q (y ∷ xs) (suc i) d n h e s = ground (
    arith,
    s 0 y (ground arith),
    count_at-drop (λ j. p (suc j)) (λ j. q (suc j)) xs i d n h e
        (λ j x m. s (suc j) x (ground (arith, m))),
  )

  -- An assignment after which the element fails another test, which passes no more than the first.
  pub count_at-update-out :
      (p q : ℕ → A → Bool) (xs : List A) (i : ℕ) (f : A → A)
      → ((x : A) → q i (f x) ≡ false)
      → ((j : ℕ) (x : A) → (i == j) ≡ false → q j x ≡ true → p j x ≡ true)
      → count_at q (update xs i f) ≤ count_at p xs
  unfolding update count_at
  count_at-update-out p q [] i f h s = omega arith
  count_at-update-out p q (y ∷ xs) zero f h s = ground (
    arith,
    h y,
    count_at-le (λ j. p (suc j)) (λ j. q (suc j)) xs (λ j x. s (suc j) x (ground arith)),
  )
  count_at-update-out p q (y ∷ xs) (suc i) f h s = ground (
    arith,
    s 0 y (ground arith),
    count_at-update-out (λ j. p (suc j)) (λ j. q (suc j)) xs i f h
        (λ j x m. s (suc j) x (ground (arith, m))),
  )

  -- An element that passes is counted; no element lies beyond the array.
  pub count_at_pos :
      (p : ℕ → A → Bool) (xs : List A) (i : ℕ) (d : A)
      → p i d ≡ false
      → p i (get_or xs i d) ≡ true
      → 0 < count_at p xs
  unfolding count_at
  count_at_pos p [] i d n h = cc
  count_at_pos p (y ∷ xs) zero d n h = ground (arith, h)
  count_at_pos p (y ∷ xs) (suc i) d n h = ground (arith, count_at_pos (λ j. p (suc j)) xs i d n h)
