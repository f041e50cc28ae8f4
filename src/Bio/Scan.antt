-- ===== src/Bio/Scan.antt =====
-- The loops of `bget` (bio.c) over the list, in both directions, as searches in a list.
use ele.Bio.{Buf, scan, head}
use ele.Bio.Chain.{Chain, append-Chain}
use ele.Base.{
  ℕ, zero, suc, ◌<◌, ◌≡◌, refl, ◌∙◌, subst, ◌⊎◌, inl, inr, Bool, true, false, ◌||◌, Option, none,
  some, List, [], ◌∷◌, ◌++◌, arith, ◌==◌, if◌then◌else◌, Bool-cases, length, length-append, mem,
  ==_iff,
}

-- The first index whose buffer passes the test.
abbrev pub first : (Buf → Bool) → (ℕ → Buf) → List ℕ → Option ℕ
first test buf [] = none
first test buf (x ∷ xs) = if test (buf x) then some x else first test buf xs

abbrev pub backward : List ℕ → List ℕ
backward [] = []
backward (x ∷ xs) = backward xs ++ x ∷ []

pub scan-first :
    (fuel : ℕ) (step back : ℕ → ℕ) (test : Buf → Bool) (p : ℕ) (xs : List ℕ) (buf : ℕ → Buf)
    → Chain step back p xs head
    → mem head xs ≡ false
    → length xs < fuel
    → scan fuel step test (step p) buf ≡ first test buf xs
unfolding scan
scan-first zero step back test p xs buf c h l = absurd (omega arith)
scan-first (suc fuel) step back test p [] buf c h l = rw c.0 refl
scan-first (suc fuel) step back test p (x ∷ xs) buf c h l =
    rw c.0 (ground (arith, h, scan-first fuel step back test x xs buf c.2))

Chain-backward :
    (next prev : ℕ → ℕ) (p : ℕ) (xs : List ℕ) (q : ℕ)
    → Chain next prev p xs q
    → Chain prev next q (backward xs) p
Chain-backward next prev p [] q c = (c.1, c.0)
Chain-backward next prev p (x ∷ xs) q c =
    append-Chain prev next q (backward xs) x [] p (Chain-backward next prev x xs q c.2) (c.1, c.0)

pub mem-append : (a : ℕ) (xs ys : List ℕ) → mem a (xs ++ ys) ≡ (mem a xs || mem a ys)
mem-append a [] ys = refl
mem-append a (x ∷ xs) ys = ground (arith, mem-append a xs ys)

pub mem-backward : (a : ℕ) (xs : List ℕ) → mem a (backward xs) ≡ mem a xs
mem-backward a [] = refl
mem-backward a (x ∷ xs) = ground (arith, mem-append a (backward xs) (x ∷ []), mem-backward a xs)

length-backward : (xs : List ℕ) → length (backward xs) ≡ length xs
length-backward [] = refl
length-backward (x ∷ xs) = omega (arith, length-append (backward xs) (x ∷ []), length-backward xs)

pub scan-backward :
    (fuel : ℕ) (next prev : ℕ → ℕ) (test : Buf → Bool) (xs : List ℕ) (buf : ℕ → Buf)
    → Chain next prev head xs head
    → mem head xs ≡ false
    → length xs < fuel
    → scan fuel prev test (prev head) buf ≡ first test buf (backward xs)
scan-backward fuel next prev test xs buf c h l =
    scan-first fuel prev next test head (backward xs) buf (Chain-backward next prev head xs head c)
      (mem-backward head xs ∙ h) (omega (arith, length-backward xs, l))

-- What a search finds.
pub first-cases :
    (test : Buf → Bool) (buf : ℕ → Buf) (xs : List ℕ)
    → ((first test buf xs ≡ none) × ((i : ℕ) → mem i xs ≡ true → test (buf i) ≡ false))
      ⊎ ((b : ℕ) × (first test buf xs ≡ some b) × (mem b xs ≡ true) × (test (buf b) ≡ true))
first-cases test buf [] = inl (refl, λ i h. cc)
first-cases test buf (x ∷ xs) = elim (Bool-cases (test (buf x))) [
  | inl e ↦ inr (x, rw e refl, ground arith, e)
  | inr e ↦ elim (first-cases test buf xs) [
    | inl (n, all) ↦ inl (
      rw e n,
      λ i h. elim (Bool-cases (x == i)) [
        | inl q ↦ subst (λ j. test (buf j) ≡ false) ((==_iff x i).0 q) e
        | inr q ↦ all i (ground (arith, h, q))
      ],
    )
    | inr (b, n, m, t) ↦ inr (b, rw e n, ground (arith, m), t)
  ]
]
