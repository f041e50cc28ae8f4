-- ===== src/Strings/Text.antt =====
-- The texts in memory: `strncmp`, `strncpy`, `safestrcpy` and `strlen` of string.c.
use mathlib.Core.Path.{fun_ext}
use ele.Strings.{Bytes, pad, strncmp, strncpy, safestrcpy, strlen, copy_text, length_from}
use ele.Base.{
  ℕ, zero, suc, ◌+◌, ◌-◌, ◌≤◌, ◌<◌, ◌≡◌, refl, sym, ap, ap₂, ◌∙◌, ◌↔◌, ◌⊎◌, inl, inr, false, ◌&&◌,
  some, List, [], ◌∷◌, arith, dec_lt, ℕ_discrete, ltb, leb, ◌==◌, if◌then◌else◌, Bool-cases, length,
  get_or, pos, store, ==_iff, store_self, store_lem,
}

-- The bytes from `s` on, up to a NUL and at most `n`.
abbrev pub text : (n s : ℕ) → Bytes → List ℕ
text zero s m = []
text (suc n) s m = if m s == 0 then [] else m s ∷ text n (s + 1) m

pub text-cons :
    (n s : ℕ) (m : Bytes) → (m s == 0) ≡ false → text (suc n) s m ≡ m s ∷ text n (s + 1) m
text-cons n s m e = rw e refl

-- `strncmp` returns 0 exactly when the texts, cut at `n` bytes, are the same.
pub strncmp-text : (p q n : ℕ) (m : Bytes) → (strncmp p q n m ≡ pos 0) ↔ (text n p m ≡ text n q m)
unfolding strncmp
strncmp-text p q zero m = (λ _. refl, λ _. refl)
strncmp-text p q (suc n) m = ground (arith, strncmp-text (p + 1) (q + 1) n m)

-- The memory with the bytes of `xs` and NULs after them, `n` bytes in all, at `s`.
abbrev pub padded : (s n : ℕ) → List ℕ → Bytes → Bytes
padded s n xs m a = if leb s a && ltb a (s + n) then get_or xs (a - s) 0 else m a

pad-padded : (s n : ℕ) (m : Bytes) (a : ℕ) → pad s n m a ≡ padded s n [] m a
unfolding pad
pad-padded s zero m a = ground arith
pad-padded s (suc n) m a = pad-padded (s + 1) n (store m s 0) a ∙ ground (arith, store_lem m s 0 a)

-- The areas of `k` bytes at `s` and `n` bytes at `t` share no byte.
abbrev pub Apart : (s k t n : ℕ) → Type 0
Apart s k t n = (s + k ≤ t) ⊎ (t + n ≤ s)

text-store : (n t s v : ℕ) (m : Bytes) → Apart s 1 t n → text n t (store m s v) ≡ text n t m
text-store zero t s v m h = refl
text-store (suc n) t s v m h = ground (arith, store_lem m s v t, text-store n (t + 1) s v m)

get_or-pred : (x : ℕ) (xs : List ℕ) (i d : ℕ) → 0 < i → get_or (x ∷ xs) i d ≡ get_or xs (i - 1) d
get_or-pred x xs zero d h = absurd (omega arith)
get_or-pred x xs (suc i) d h = ap (λ j. get_or xs j d) (omega arith)

sub_sub : (a s : ℕ) → a - s - 1 ≡ a - (s + 1)
sub_sub a s = omega arith

padded-cons :
    (s n v : ℕ) (xs : List ℕ) (m : Bytes) (a : ℕ)
    → padded (s + 1) n xs (store m s v) a ≡ padded s (suc n) (v ∷ xs) m a
padded-cons s n v xs m a = elim (dec_lt s a) [
  | yes p ↦
      ground (
        arith,
        store_lem m s v a,
        get_or-pred v xs (a - s) 0,
        ap (λ j. get_or xs j 0) (sub_sub a s),
      )
  | no p ↦ elim (ℕ_discrete s a) [
    | yes q ↦ let e : a - s ≡ 0 = omega arith in rw e (ground (arith, store_lem m s v a))
    | no q ↦ ground (arith, store_lem m s v a)
  ]
]

strncpy-at :
    (s t n : ℕ) (m : Bytes) (a : ℕ)
    → Apart s n t n
    → strncpy s t n m a ≡ padded s n (text n t m) m a
unfolding strncpy
strncpy-at s t zero m a h = ground arith
strncpy-at s t (suc n) m a h = elim (Bool-cases (m t == 0)) [
  | inl e ↦
      rw (strncpy, e)
        (pad-padded (s + 1) n (store m s (m t)) a
          ∙ ground (arith, (==_iff (m t) 0).0 e, store_lem m s (m t) a))
  | inr e ↦
      rw (strncpy, e)
        (strncpy-at (s + 1) (t + 1) n (store m s (m t)) a (ground arith)
          ∙ ap (λ xs. padded (s + 1) n xs (store m s (m t)) a)
              (text-store n (t + 1) s (m t) m (ground arith))
          ∙ padded-cons s n (m t) (text n (t + 1) m) m a)
]

-- Where the areas do not overlap, `strncpy` writes the text and NULs after it, `n` bytes in all.
pub strncpy-padded :
    (s t n : ℕ) (m : Bytes) → Apart s n t n → strncpy s t n m ≡ padded s n (text n t m) m
strncpy-padded s t n m h = fun_ext λ a. strncpy-at s t n m a h

copy_text-outside :
    (s t n : ℕ) (m : Bytes) (a : ℕ) → (a < s) ⊎ (s + n < a) → copy_text s t n m a ≡ m a
unfolding copy_text
copy_text-outside s t zero m a h = ground (arith, store_lem m s 0 a)
copy_text-outside s t (suc n) m a h = elim (Bool-cases (m t == 0)) [
  | inl e ↦
      rw (copy_text, e)
        (ground (arith, store_lem m s (m t) a, store_lem (store m s (m t)) (s + 1) 0 a))
  | inr e ↦
      rw (copy_text, e)
        (copy_text-outside (s + 1) (t + 1) n (store m s (m t)) a (ground arith)
          ∙ ground (arith, store_lem m s (m t) a))
]

copy_text-cons :
    (s t n : ℕ) (m : Bytes)
    → (m t == 0) ≡ false
    → copy_text s t (suc n) m ≡ copy_text (s + 1) (t + 1) n (store m s (m t))
unfolding copy_text
copy_text-cons s t n m e = rw e refl

copy_text-text :
    (s t n : ℕ) (m : Bytes) → Apart s (suc n) t n → text (suc n) s (copy_text s t n m) ≡ text n t m
unfolding copy_text
copy_text-text s t zero m h = ground (arith, store_lem m s 0 s)
copy_text-text s t (suc n) m h = elim (Bool-cases (m t == 0)) [
  | inl e ↦
      rw (copy_text, e)
        (ground (
          arith,
          (==_iff (m t) 0).0 e,
          store_lem m s (m t) s,
          store_lem (store m s (m t)) (s + 1) 0 s,
        ))
  | inr e ↦
      let m' = store m s (m t) in
      let result = copy_text (s + 1) (t + 1) n m' in
      let first : result s ≡ m t =
        copy_text-outside (s + 1) (t + 1) n m' s (inl (omega arith)) ∙ store_self m s (m t) in
      let more : (result s == 0) ≡ false = rw first e in
      ap (text (suc (suc n)) s) (copy_text-cons s t n m e)
      ∙ text-cons (suc n) s result more
      ∙ ap₂ (λ x xs. x ∷ xs) first
          (copy_text-text (s + 1) (t + 1) n m' (ground arith)
            ∙ text-store n (t + 1) s (m t) m (ground arith))
      ∙ sym (text-cons n t m e)
]

-- Where the areas do not overlap, `safestrcpy` leaves the text of the source, cut to one byte less
-- than the size, with a NUL after it, and writes only into the destination.
safestrcpy-text :
    (s t n : ℕ) (m : Bytes)
    → Apart s (suc n) t n
    → (text (suc n) s (safestrcpy s t (suc n) m) ≡ text n t m)
      × ((a : ℕ) → (a < s) ⊎ (s + n < a) → safestrcpy s t (suc n) m a ≡ m a)
unfolding safestrcpy
safestrcpy-text s t n m h = (copy_text-text s t n m h, copy_text-outside s t n m)

length_from-text :
    (fuel s n : ℕ) (m : Bytes)
    → length (text fuel (s + n) m) < fuel
    → length_from fuel s n m ≡ some (n + length (text fuel (s + n) m))
unfolding length_from
length_from-text zero s n m h = absurd (omega arith)
length_from-text (suc fuel) s n m h = elim (Bool-cases (m (s + n) == 0)) [
  | inl e ↦ rw e (ap some (omega arith))
  | inr e ↦
      let next : s + n + 1 ≡ s + (n + 1) = omega arith in
      let fits : length (text fuel (s + (n + 1)) m) < fuel =
        rw (← next) (omega (arith, ap length (text-cons fuel (s + n) m e), h)) in
      rw e (length_from-text fuel s (n + 1) m fits ∙ ap some (rw next (omega arith)))
]

-- `strlen` returns the length of the text when its NUL comes within the fuel.
pub strlen-text :
    (fuel s : ℕ) (m : Bytes)
    → length (text fuel s m) < fuel
    → strlen fuel s m ≡ some (length (text fuel s m))
unfolding strlen
strlen-text fuel s m h =
    let e : s + 0 ≡ s = omega arith in
    length_from-text fuel s 0 m (rw e h) ∙ ap some (rw e (omega arith))
