-- ===== src/Base/Lists.antt =====
-- C arrays as lists, measured and indexed by native numbers, under the library's names.
use Prim.Native.Nat.{ℕ, zero, suc, ◌+◌, ◌<◌, ◌≤◌}
use mathlib.Core.Path.{◌≡◌, refl, ap}
use mathlib.Core.Logic.{◌≢◌, ◌⊎◌, inl, inr}
use mathlib.Core.Bool.{Bool, false, ◌||◌}
use mathlib.Core.List.{List, [], ◌∷◌, ◌++◌, map}
use mathlib.Core.Option.{Option, none, some}
use native.Mathlib.Omega.{arith}
use ele.Base.Tests.{if◌then◌else◌, ◌==◌}

module _ {ℓ} {A : Type ℓ} where
  abbrev pub length : List A → ℕ
  length [] = 0
  length (x ∷ xs) = suc (length xs)

  abbrev pub get_elem? : List A → ℕ → Option A
  get_elem? [] i = none
  get_elem? (x ∷ xs) zero = some x
  get_elem? (x ∷ xs) (suc i) = get_elem? xs i

  abbrev pub get_or : List A → ℕ → A → A
  get_or [] i d = d
  get_or (x ∷ xs) zero d = x
  get_or (x ∷ xs) (suc i) d = get_or xs i d

  -- A write out of bounds changes nothing.
  abbrev pub set : List A → ℕ → A → List A
  set [] i v = []
  set (x ∷ xs) zero v = v ∷ xs
  set (x ∷ xs) (suc i) v = x ∷ set xs i v

  abbrev pub replicate : ℕ → A → List A
  replicate zero a = []
  replicate (suc n) a = a ∷ replicate n a

  abbrev pub take : ℕ → List A → List A
  take zero xs = []
  take (suc n) [] = []
  take (suc n) (x ∷ xs) = x ∷ take n xs

  abbrev pub drop : ℕ → List A → List A
  drop zero xs = xs
  drop (suc n) [] = []
  drop (suc n) (x ∷ xs) = drop n xs

  -- The assignments to fields of one array element: `f` rewrites the element at the index.
  unfoldable pub update : List A → ℕ → (A → A) → List A
  update [] i f = []
  update (x ∷ xs) zero f = f x ∷ xs
  update (x ∷ xs) (suc i) f = x ∷ update xs i f

  unfoldable pub count_if : (A → Bool) → List A → ℕ
  count_if p [] = 0
  count_if p (x ∷ xs) = (if p x then 1 else 0) + count_if p xs

module _ {ℓ} {A : Type ℓ} where
  pub length-append : (xs ys : List A) → length (xs ++ ys) ≡ length xs + length ys
  length-append [] ys = omega arith
  length-append (x ∷ xs) ys = omega (arith, length-append xs ys)

  pub length-set : (xs : List A) (i : ℕ) (v : A) → length (set xs i v) ≡ length xs
  length-set [] i v = refl
  length-set (x ∷ xs) zero v = refl
  length-set (x ∷ xs) (suc i) v = ap suc (length-set xs i v)

  pub get_or-set_self :
      (xs : List A) (i : ℕ) (v d : A) → i < length xs → get_or (set xs i v) i d ≡ v
  get_or-set_self [] i v d h = absurd (omega arith)
  get_or-set_self (x ∷ xs) zero v d h = refl
  get_or-set_self (x ∷ xs) (suc i) v d h = get_or-set_self xs i v d (omega arith)

  pub get_or-set_ne :
      (xs : List A) {i j : ℕ} (v d : A) → i ≢ j → get_or (set xs i v) j d ≡ get_or xs j d
  get_or-set_ne [] v d h = refl
  get_or-set_ne (x ∷ xs) {i = zero} {j = zero} v d h = absurd (h refl)
  get_or-set_ne (x ∷ xs) {i = zero} {j = suc j} v d h = refl
  get_or-set_ne (x ∷ xs) {i = suc i} {j = zero} v d h = refl
  get_or-set_ne (x ∷ xs) {i = suc i} {j = suc j} v d h = get_or-set_ne xs v d (λ e. h (ap suc e))

  pub length-update : (xs : List A) (i : ℕ) (f : A → A) → length (update xs i f) ≡ length xs
  unfolding update
  length-update [] i f = refl
  length-update (x ∷ xs) zero f = refl
  length-update (x ∷ xs) (suc i) f = ap suc (length-update xs i f)

  pub get_elem?-update_self :
      (xs : List A) (i : ℕ) (f : A → A) {x : A}
      → get_elem? xs i ≡ some x
      → get_elem? (update xs i f) i ≡ some (f x)
  unfolding update
  get_elem?-update_self [] i f h = cc
  get_elem?-update_self (y ∷ xs) zero f h = ground arith
  get_elem?-update_self (y ∷ xs) (suc i) f h = get_elem?-update_self xs i f h

  pub get_elem?-update_ne :
      (xs : List A) (i j : ℕ) (f : A → A) → i ≢ j → get_elem? (update xs i f) j ≡ get_elem? xs j
  unfolding update
  get_elem?-update_ne [] i j f h = refl
  get_elem?-update_ne (x ∷ xs) zero zero f h = absurd (h refl)
  get_elem?-update_ne (x ∷ xs) zero (suc j) f h = refl
  get_elem?-update_ne (x ∷ xs) (suc i) zero f h = refl
  get_elem?-update_ne (x ∷ xs) (suc i) (suc j) f h =
      get_elem?-update_ne xs i j f (λ e. h (ap suc e))

  pub get_elem?_of_lt : (xs : List A) (i : ℕ) → i < length xs → (x : A) × (get_elem? xs i ≡ some x)
  get_elem?_of_lt [] i h = absurd (omega arith)
  get_elem?_of_lt (x ∷ xs) zero h = (x, refl)
  get_elem?_of_lt (x ∷ xs) (suc i) h = get_elem?_of_lt xs i (omega arith)

  pub lt_of_get_elem? : (xs : List A) (i : ℕ) {x : A} → get_elem? xs i ≡ some x → i < length xs
  lt_of_get_elem? [] i h = cc
  lt_of_get_elem? (y ∷ xs) zero h = omega arith
  lt_of_get_elem? (y ∷ xs) (suc i) h = omega (arith, lt_of_get_elem? xs i h)

  pub length-map : (xs : List A) (f : A → A) → length (map f xs) ≡ length xs
  length-map [] f = refl
  length-map (x ∷ xs) f = ap suc (length-map xs f)

  pub get_elem?-map :
      (xs : List A) (i : ℕ) (f : A → A) {x : A}
      → get_elem? xs i ≡ some x
      → get_elem? (map f xs) i ≡ some (f x)
  get_elem?-map [] i f h = cc
  get_elem?-map (y ∷ xs) zero f h = ground arith
  get_elem?-map (y ∷ xs) (suc i) f h = get_elem?-map xs i f h

  -- What an assignment to one element does to a count.
  pub count_if-update :
      (p : A → Bool) (xs : List A) (i : ℕ) (f : A → A) {x : A}
      → get_elem? xs i ≡ some x
      → count_if p (update xs i f) + (if p x then 1 else 0)
        ≡ count_if p xs + (if p (f x) then 1 else 0)
  unfolding update count_if
  count_if-update p [] i f h = cc
  count_if-update p (y ∷ xs) zero f h = ground arith
  count_if-update p (y ∷ xs) (suc i) f h = ground (arith, count_if-update p xs i f h)

  pub count_if-map :
      (p : A → Bool) (xs : List A) (f : A → A)
      → ((x : A) → p (f x) ≡ p x)
      → count_if p (map f xs) ≡ count_if p xs
  unfolding count_if
  count_if-map p [] f h = refl
  count_if-map p (x ∷ xs) f h = ground (arith, h x, count_if-map p xs f h)

  pub count_if_pos :
      (p : A → Bool) (xs : List A) (i : ℕ) {x : A}
      → get_elem? xs i ≡ some x
      → p x ≡ Bool.true
      → 0 < count_if p xs
  unfolding count_if
  count_if_pos p [] i h e = cc
  count_if_pos p (y ∷ xs) zero h e = ground arith
  count_if_pos p (y ∷ xs) (suc i) h e = ground (arith, count_if_pos p xs i h e)

  -- An assignment that makes no element pass anew does not raise a count.
  pub count_if-update-le :
      (p : A → Bool) (xs : List A) (i : ℕ) (f : A → A)
      → ((x : A) → get_elem? xs i ≡ some x → p (f x) ≡ Bool.true → p x ≡ Bool.true)
      → count_if p (update xs i f) ≤ count_if p xs
  unfolding update count_if
  count_if-update-le p [] i f h = omega arith
  count_if-update-le p (y ∷ xs) zero f h = ground (arith, h y refl)
  count_if-update-le p (y ∷ xs) (suc i) f h = ground (arith, count_if-update-le p xs i f h)

  -- Nor does an assignment raise it by more than one.
  pub count_if-update-le-suc :
      (p : A → Bool) (xs : List A) (i : ℕ) (f : A → A)
      → count_if p (update xs i f) ≤ count_if p xs + 1
  unfolding update count_if
  count_if-update-le-suc p [] i f = omega arith
  count_if-update-le-suc p (y ∷ xs) zero f = ground arith
  count_if-update-le-suc p (y ∷ xs) (suc i) f = ground (arith, count_if-update-le-suc p xs i f)

  -- An assignment after which a passing element fails lowers it.
  pub count_if-update-lt :
      (p : A → Bool) (xs : List A) (i : ℕ) (f : A → A) {x : A}
      → get_elem? xs i ≡ some x
      → p x ≡ Bool.true
      → p (f x) ≡ Bool.false
      → count_if p (update xs i f) + 1 ≡ count_if p xs
  count_if-update-lt p xs i f h e n = ground (arith, count_if-update p xs i f h)

  -- Arrays that agree at an index hold the same there.
  pub get_or_congr :
      (xs ys : List A) (i : ℕ) (d : A)
      → get_elem? xs i ≡ get_elem? ys i
      → get_or xs i d ≡ get_or ys i d
  get_or_congr [] [] i d h = refl
  get_or_congr [] (y ∷ ys) zero d h = cc
  get_or_congr [] (y ∷ ys) (suc i) d h = get_or_congr [] ys i d h
  get_or_congr (x ∷ xs) [] zero d h = cc
  get_or_congr (x ∷ xs) [] (suc i) d h = get_or_congr xs [] i d h
  get_or_congr (x ∷ xs) (y ∷ ys) zero d h = ground arith
  get_or_congr (x ∷ xs) (y ∷ ys) (suc i) d h = get_or_congr xs ys i d h

  -- `p` fails beyond the array; where it passes, an assignment that makes it fail lowers the count.
  pub count_if-update-at :
      (p : A → Bool) (xs : List A) (i : ℕ) (f : A → A) (d : A)
      → p d ≡ Bool.false
      → p (get_or xs i d) ≡ Bool.true
      → ((x : A) → p (f x) ≡ Bool.false)
      → count_if p (update xs i f) + 1 ≡ count_if p xs
  unfolding update count_if
  count_if-update-at p [] i f d n h e = cc
  count_if-update-at p (y ∷ xs) zero f d n h e = ground (arith, e y)
  count_if-update-at p (y ∷ xs) (suc i) f d n h e =
      ground (arith, count_if-update-at p xs i f d n h e)

  -- An assignment seen at its own index, with a value for what lies beyond the array.
  pub get_or-update_self :
      (xs : List A) (i : ℕ) (f : A → A) (d : A)
      → (get_or (update xs i f) i d ≡ f (get_or xs i d))
        ⊎ ((get_or (update xs i f) i d ≡ d) × (get_or xs i d ≡ d))
  unfolding update
  get_or-update_self [] i f d = inr (refl, refl)
  get_or-update_self (x ∷ xs) zero f d = inl refl
  get_or-update_self (x ∷ xs) (suc i) f d = get_or-update_self xs i f d

-- Lists of numbers: membership, and no number twice.
abbrev pub mem : ℕ → List ℕ → Bool
mem a [] = false
mem a (b ∷ bs) = b == a || mem a bs

abbrev pub Distinct : List ℕ → Type 0
Distinct [] = Unit {0}
Distinct (b ∷ bs) = (mem b bs ≡ false) × Distinct bs
