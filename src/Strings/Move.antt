-- ===== src/Strings/Move.antt =====
-- `memmove` (string.c) against what it means: a copy of the old bytes, whatever the overlap.
use mathlib.Core.Path.{fun_ext}
use ele.Strings.{Bytes, copy_down, copy_up, memmove}
use ele.Base.{
  ℕ, zero, suc, ◌+◌, ◌-◌, ◌≤◌, ◌≡◌, ap, ◌∙◌, ◌⊎◌, inl, inr, ◌&&◌, arith, ltb, leb, if◌then◌else◌,
  Bool-cases, store, store_lem,
}

-- The memory in which the `n` bytes from `s` on have been copied to `d`.
abbrev pub copied : (d s n : ℕ) → Bytes → Bytes
copied d s n m a = if leb d a && ltb a (d + n) then m (s + (a - d)) else m a

same_at : (m : Bytes) (x y : ℕ) → x ≡ y → m x ≡ m y
same_at m x y e = ap m e

copy_up-copied :
    (n d s : ℕ) (m : Bytes) (a : ℕ) → (d ≤ s) ⊎ (s + n ≤ d) → copy_up n d s m a ≡ copied d s n m a
unfolding copy_up
copy_up-copied zero d s m a h = ground arith
copy_up-copied (suc n) d s m a h =
    copy_up-copied n (d + 1) (s + 1) (store m d (m s)) a (ground arith)
    ∙ ground (
      arith,
      store_lem m d (m s) (s + 1 + (a - (d + 1))),
      store_lem m d (m s) a,
      same_at m (s + 1 + (a - (d + 1))) (s + (a - d)),
      same_at m s (s + (a - d)),
    )

copy_down-copied : (n d s : ℕ) (m : Bytes) (a : ℕ) → s ≤ d → copy_down n d s m a ≡ copied d s n m a
unfolding copy_down
copy_down-copied zero d s m a h = ground arith
copy_down-copied (suc n) d s m a h =
    copy_down-copied n d s (store m (d + n) (m (s + n))) a h
    ∙ ground (
      arith,
      store_lem m (d + n) (m (s + n)) (s + (a - d)),
      store_lem m (d + n) (m (s + n)) a,
      same_at m (s + n) (s + (a - d)),
    )

-- `memmove` leaves at each address of the destination the byte that was at the same place of the
-- source before the call, also where the areas overlap, and changes no other byte.
pub memmove-copied : (d s n : ℕ) (m : Bytes) → memmove d s n m ≡ copied d s n m
unfolding memmove
memmove-copied d s n m = fun_ext λ a. elim (Bool-cases (ltb s d && ltb d (s + n))) [
  | inl e ↦ rw e (copy_down-copied n d s m a (ground (arith, e)))
  | inr e ↦ rw e (copy_up-copied n d s m a (ground (arith, e)))
]
