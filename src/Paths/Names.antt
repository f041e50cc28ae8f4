-- ===== src/Paths/Names.antt =====
-- The elements of a path (`skipelem` of fs.c) are its parts between slashes.
use ele.Paths.{copy_name, dirsiz, passed, skip_slashes, skipelem, slash, stopped}
use ele.Base.{
  ℕ, zero, suc, ◌≤◌, ◌<◌, ◌≡◌, refl, sym, ap, ap₂, ◌∙◌, ◌⊎◌, inl, inr, false, none, some, List, [],
  ◌∷◌, arith, leb, ◌==◌, if◌then◌else◌, Bool-cases, length, take,
}

-- The parts of a path between the slashes, empty ones as well.
abbrev cons_first : ℕ → List (List ℕ) → List (List ℕ)
cons_first c [] = (c ∷ []) ∷ []
cons_first c (s ∷ ss) = (c ∷ s) ∷ ss

unfoldable pub parts : List ℕ → List (List ℕ)
parts [] = [] ∷ []
parts (c ∷ cs) = if c == slash then [] ∷ parts cs else cons_first c (parts cs)

-- The names: the parts that are not empty, cut to `DIRSIZ` bytes.
unfoldable pub names_of : List (List ℕ) → List (List ℕ)
names_of [] = []
names_of ([] ∷ ss) = names_of ss
names_of ((c ∷ s) ∷ ss) = take dirsiz (c ∷ s) ∷ names_of ss

abbrev pub names : List ℕ → List (List ℕ)
names path = names_of (parts path)

-- The parts after the first.
abbrev later : List ℕ → List (List ℕ)
later [] = []
later (c ∷ cs) = parts cs

parts-passed : (cs : List ℕ) → parts cs ≡ passed cs ∷ later (stopped cs)
unfolding parts passed stopped
parts-passed [] = refl
parts-passed (c ∷ cs) = elim (Bool-cases (c == slash)) [
  | inl e ↦ rw e refl
  | inr e ↦ rw (e, parts-passed cs) refl
]

skip_slashes_ne : (c : ℕ) (cs : List ℕ) → (c == slash) ≡ false → skip_slashes (c ∷ cs) ≡ c ∷ cs
unfolding skip_slashes
skip_slashes_ne c cs e = rw e refl

names-skip_slashes : (path : List ℕ) → names (skip_slashes path) ≡ names path
unfolding parts skip_slashes names_of
names-skip_slashes [] = refl
names-skip_slashes (c ∷ cs) = elim (Bool-cases (c == slash)) [
  | inl e ↦ rw e (names-skip_slashes cs)
  | inr e ↦ ap names (skip_slashes_ne c cs e)
]

names-later : (cs : List ℕ) → names_of (later (stopped cs)) ≡ names (skip_slashes (stopped cs))
unfolding stopped names_of skip_slashes parts
names-later [] = refl
names-later (c ∷ cs) = elim (Bool-cases (c == slash)) [
  | inl e ↦ rw (e, e) (sym (names-skip_slashes cs))
  | inr e ↦ rw e (names-later cs)
]

take_all : (n : ℕ) (s : List ℕ) → length s ≤ n → take n s ≡ s
take_all zero [] l = refl
take_all (suc n) [] l = refl
take_all zero (c ∷ s) l = absurd (omega (arith, l))
take_all (suc n) (c ∷ s) l = ap (λ r. c ∷ r) (take_all n s (omega (arith, l)))

copy_name-take : (s : List ℕ) → copy_name s ≡ take dirsiz s
copy_name-take s = elim (Bool-cases (leb dirsiz (length s))) [
  | inl e ↦ rw e refl
  | inr e ↦ rw e (take_all (length s) s (omega arith) ∙ sym (take_all dirsiz s (ground (arith, e))))
]

-- The first byte after slashes is none.
skip_slashes-cons :
    (path : List ℕ) (c : ℕ) (cs : List ℕ) → skip_slashes path ≡ c ∷ cs → (c == slash) ≡ false
unfolding skip_slashes
skip_slashes-cons [] c cs e = cc
skip_slashes-cons (d ∷ ds) c cs e = elim (Bool-cases (d == slash)) [
  | inl h ↦ skip_slashes-cons ds c cs (rw h at e)
  | inr h ↦ ground (arith, rw h at e, h)
]

length-skip_slashes : (path : List ℕ) → length (skip_slashes path) ≤ length path
unfolding skip_slashes
length-skip_slashes [] = omega arith
length-skip_slashes (c ∷ cs) = ground (arith, length-skip_slashes cs)

length-stopped : (path : List ℕ) → length (stopped path) ≤ length path
unfolding stopped
length-stopped [] = omega arith
length-stopped (c ∷ cs) = ground (arith, length-stopped cs)

names-cons :
    (c : ℕ) (cs : List ℕ)
    → (c == slash) ≡ false
    → names (c ∷ cs) ≡ copy_name (passed (c ∷ cs)) ∷ names (skip_slashes (stopped (c ∷ cs)))
unfolding parts names_of passed stopped
names-cons c cs e = rw e (
    ap (λ ps. names_of (cons_first c ps)) (parts-passed cs)
    ∙ ap₂ (λ x y. x ∷ y) (sym (copy_name-take (c ∷ passed cs))) (names-later cs))

shorter : (c : ℕ) (cs : List ℕ) → (c == slash) ≡ false → length (stopped (c ∷ cs)) < length (c ∷ cs)
unfolding stopped
shorter c cs e = rw e (omega (arith, length-stopped cs))

-- The two cases of `skipelem`.
abbrev Element : List ℕ → Type 0
Element path =
    ((skipelem path ≡ none) × (names path ≡ []))
    ⊎ ((elem : List ℕ) × (rest : List ℕ) × (skipelem path ≡ some (elem, rest))
        × (names path ≡ elem ∷ names rest)
        × (length rest < length path))

after_slashes : (path q : List ℕ) → skip_slashes path ≡ q → Element path
unfolding skipelem parts names_of
after_slashes path [] e = inl (rw (skipelem, e) refl, sym (names-skip_slashes path) ∙ rw e refl)
after_slashes path (c ∷ cs) e =
    let ne = skip_slashes-cons path c cs e in
    inr (
      copy_name (passed (c ∷ cs)),
      skip_slashes (stopped (c ∷ cs)),
      rw (skipelem, e) refl,
      sym (names-skip_slashes path) ∙ rw e (names-cons c cs ne),
      omega (
        arith,
        length-skip_slashes (stopped (c ∷ cs)),
        length-skip_slashes path,
        ap length e,
        shorter c cs ne,
      ),
    )

-- `skipelem` gives the names of a path one after another, each time with a shorter rest.
pub skipelem-names :
    (path : List ℕ)
    → ((skipelem path ≡ none) × (names path ≡ []))
      ⊎ ((elem : List ℕ) × (rest : List ℕ) × (skipelem path ≡ some (elem, rest))
          × (names path ≡ elem ∷ names rest)
          × (length rest < length path))
skipelem-names path = after_slashes path (skip_slashes path) refl
