-- ===== src/Base/Search.antt =====
-- The loops `for (p = a; p < &a[N]; p++) if (test(p)) return p;` over an array.
use Prim.Native.Nat.{ℕ, zero, suc, ◌+◌, ◌<◌}
use mathlib.Core.Path.{◌≡◌, refl, ap}
use mathlib.Core.Logic.{◌⊎◌, inl, inr}
use mathlib.Core.Bool.{Bool, true, false}
use mathlib.Core.List.{List, [], ◌∷◌}
use mathlib.Core.Option.{Option, none, some}
use native.Mathlib.Omega.{arith}
use ele.Base.Tests.{if◌then◌else◌, Bool-cases}
use ele.Base.Lists.{get_elem?}

module _ {ℓ} {A : Type ℓ} where
  -- The index of the first element that passes the test, counted from `i`.
  unfoldable pub find_from : ℕ → (A → Bool) → List A → Option ℕ
  find_from i test [] = none
  find_from i test (x ∷ xs) = if test x then some i else find_from (suc i) test xs

  unfoldable pub find_index : (A → Bool) → List A → Option ℕ
  unfolding find_from
  find_index test xs = find_from 0 test xs

  -- The element found: it passes the test, and no element before it does.
  pub record Found (test : A → Bool) (xs : List A) (i : ℕ) : Type ℓ where
    pub item : A
    pub at : get_elem? xs i ≡ some item
    pub passes : test item ≡ true
    pub first : (j : ℕ) (y : A) → j < i → get_elem? xs j ≡ some y → test y ≡ false

  abbrev pub NoneFound : (A → Bool) → List A → Type ℓ
  NoneFound test xs = (j : ℕ) (y : A) → get_elem? xs j ≡ some y → test y ≡ false

  NoneFound-cons :
      (test : A → Bool) (x : A) (xs : List A)
      → test x ≡ false
      → NoneFound test xs
      → NoneFound test (x ∷ xs)
  NoneFound-cons test x xs e rest zero y h = ground arith
  NoneFound-cons test x xs e rest (suc j) y h = rest j y h

  before-cons :
      (test : A → Bool) (x : A) (xs : List A) (i : ℕ)
      → test x ≡ false
      → ((j : ℕ) (y : A) → j < i → get_elem? xs j ≡ some y → test y ≡ false)
      → (j : ℕ) (y : A) → j < suc i
      → get_elem? (x ∷ xs) j ≡ some y
      → test y ≡ false
  before-cons test x xs i e rest zero y l h = ground arith
  before-cons test x xs i e rest (suc j) y l h = rest j y (omega arith) h

  find_from-Found :
      (i : ℕ) (test : A → Bool) (xs : List A)
      → ((find_from i test xs ≡ none) × NoneFound test xs)
        ⊎ ((k : ℕ) × (find_from i test xs ≡ some (i + k)) × Found test xs k)
  unfolding find_from
  find_from-Found i test [] = inl (refl, λ j y h. cc)
  find_from-Found i test (x ∷ xs) = elim (Bool-cases (test x)) [
    | inl e ↦ inr (
      0,
      ground arith,
      record { item = x; at = refl; passes = e; first = λ j y l h. absurd (omega arith) },
    )
    | inr e ↦ elim (find_from-Found (suc i) test xs) [
      | inl (n, rest) ↦ inl (rw e n, NoneFound-cons test x xs e rest)
      | inr (k, n, f) ↦ inr (
        suc k,
        rw (e, n) (ap some (omega arith)),
        record {
          item = f.item;
          at = f.at;
          passes = f.passes;
          first = before-cons test x xs k e f.first;
        },
      )
    ]
  ]

  -- The search fails on an array with no passing element, and otherwise returns the first one.
  pub find_index-Found :
      (test : A → Bool) (xs : List A)
      → ((find_index test xs ≡ none) × NoneFound test xs)
        ⊎ ((k : ℕ) × (find_index test xs ≡ some k) × Found test xs k)
  unfolding find_index
  find_index-Found test xs = elim (find_from-Found 0 test xs) [
    | inl r ↦ inl r
    | inr (k, n, f) ↦ inr (k, rw n (ap some (omega arith)), f)
  ]
