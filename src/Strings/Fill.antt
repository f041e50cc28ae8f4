-- ===== src/Strings/Fill.antt =====
-- `memset` (string.c) on both of its branches.
use mathlib.Core.Path.{fun_ext}
use ele.Strings.{Bytes, memset, stosb, stosl}
use ele.Base.{
  ℕ, zero, suc, ◌+◌, ◌*◌, ◌/◌, ◌%◌, ◌<◌, ◌≡◌, ap, ◌∙◌, inl, inr, ◌&&◌, arith, ltb, leb, ◌==◌,
  if◌then◌else◌, Bool-cases, store, store_lem,
}

abbrev pub filled : (d b n : ℕ) → Bytes → Bytes
filled d b n m a = if leb d a && ltb a (d + n) then b else m a

stosb-filled : (d byte n : ℕ) (m : Bytes) (a : ℕ) → stosb d byte n m a ≡ filled d (byte % 256) n m a
unfolding stosb
stosb-filled d byte zero m a = ground arith
stosb-filled d byte (suc n) m a =
    stosb-filled (d + 1) byte n (store m d (byte % 256)) a
    ∙ ground (arith, store_lem m d (byte % 256) a)

-- A word whose four bytes are the same.
stosl-filled :
    (d b n : ℕ) (m : Bytes) (a : ℕ)
    → b < 256
    → stosl d (b * 16777216 + b * 65536 + b * 256 + b) n m a ≡ filled d b (n * 4) m a
unfolding stosl store
stosl-filled d b zero m a h = ground arith
stosl-filled d b (suc n) m a h = stosl-filled (d + 4) b n _ a h ∙ ground arith

-- `memset` sets each byte of the area to the low byte of `c`, and changes no other byte.
pub memset-filled : (d c n : ℕ) (m : Bytes) → memset d c n m ≡ filled d (c % 256) n m
unfolding memset
memset-filled d c n m = fun_ext λ a. elim (Bool-cases (d % 4 == 0 && n % 4 == 0)) [
  | inl e ↦ rw e (
      stosl-filled d (c % 256) (n / 4) m a (omega arith)
      ∙ ap (λ k. filled d (c % 256) k m a) (ground (arith, e)))
  | inr e ↦ rw e (stosb-filled d c n m a)
]
