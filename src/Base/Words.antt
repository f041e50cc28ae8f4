-- ===== src/Base/Words.antt =====
-- Words of memory: four or two bytes, the low one first.
use Prim.Native.Nat.{ℕ, ◌+◌, ◌*◌, ◌/◌, ◌%◌, ◌≤◌, ◌<◌}
use mathlib.Core.Path.{◌≡◌}
use mathlib.Core.Logic.{◌⊎◌}
use native.Mathlib.Omega.{arith}
use ele.Base.Memory.{store}

unfoldable pub load_word : (ℕ → ℕ) → ℕ → ℕ
load_word m a = m a + 256 * m (a + 1) + 65536 * m (a + 2) + 16777216 * m (a + 3)

unfoldable pub store_word : (ℕ → ℕ) → ℕ → ℕ → ℕ → ℕ
unfolding store
store_word m a w =
    store (store (store (store m a (w % 256)) (a + 1) (w / 256 % 256)) (a + 2) (w / 65536 % 256))
      (a + 3) (w / 16777216 % 256)

unfoldable pub load_short : (ℕ → ℕ) → ℕ → ℕ
load_short m a = m a + 256 * m (a + 1)

unfoldable pub store_short : (ℕ → ℕ) → ℕ → ℕ → ℕ → ℕ
unfolding store
store_short m a w = store (store m a (w % 256)) (a + 1) (w / 256 % 256)

pub store_word-outside : (m : ℕ → ℕ) (a w x : ℕ) → (x < a) ⊎ (a + 4 ≤ x) → store_word m a w x ≡ m x
unfolding store_word
store_word-outside m a w x h = ground arith

pub store_short-outside :
    (m : ℕ → ℕ) (a w x : ℕ) → (x < a) ⊎ (a + 2 ≤ x) → store_short m a w x ≡ m x
unfolding store_short
store_short-outside m a w x h = ground arith

pub load_word-store_word :
    (m : ℕ → ℕ) (a w : ℕ) → w < 4294967296 → load_word (store_word m a w) a ≡ w
unfolding load_word store_word
load_word-store_word m a w l = ground arith

pub load_short-store_short :
    (m : ℕ → ℕ) (a w : ℕ) → w < 65536 → load_short (store_short m a w) a ≡ w
unfolding load_short store_short
load_short-store_short m a w l = ground arith

-- Memories that agree at four bytes have the same word there.
pub load_word-congr :
    (m m' : ℕ → ℕ) (a : ℕ)
    → ((x : ℕ) → a ≤ x → x < a + 4 → m x ≡ m' x)
    → load_word m a ≡ load_word m' a
unfolding load_word
load_word-congr m m' a h = omega (
  arith,
  h a (omega arith) (omega arith),
  h (a + 1) (omega arith) (omega arith),
  h (a + 2) (omega arith) (omega arith),
  h (a + 3) (omega arith) (omega arith),
)

pub load_word-store_word_ne :
    (m : ℕ → ℕ) (a w b : ℕ)
    → (b + 4 ≤ a) ⊎ (a + 4 ≤ b)
    → load_word (store_word m a w) b ≡ load_word m b
load_word-store_word_ne m a w b h =
    load_word-congr (store_word m a w) m b (λ x l k. store_word-outside m a w x (ground (arith, h)))
