-- ===== src/Base/Memory.antt =====
-- Memory as a function from addresses, and one place of it written.
use Prim.Native.Nat.{ℕ}
use mathlib.Core.Path.{◌≡◌, refl}
use mathlib.Core.Bool.{false}
use native.Mathlib.Omega.{arith}
use ele.Base.Tests.{◌==◌, if◌then◌else◌}

module _ {ℓ} {A : Type ℓ} where
  unfoldable pub store : (ℕ → A) → ℕ → A → ℕ → A
  store m p v a = if p == a then v else m a

  pub store_lem : (m : ℕ → A) (p : ℕ) (v : A) (a : ℕ) → store m p v a ≡ (if p == a then v else m a)
  unfolding store
  store_lem m p v a = refl

  pub store_self : (m : ℕ → A) (p : ℕ) (v : A) → store m p v p ≡ v
  unfolding store
  store_self m p v = ground arith

  pub store_ne : (m : ℕ → A) (p : ℕ) (v : A) (a : ℕ) → (p == a) ≡ false → store m p v a ≡ m a
  unfolding store
  store_ne m p v a h = rw h
