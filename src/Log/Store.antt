-- ===== src/Log/Store.antt =====
-- The disk under log.c, as it sees it through `bread` and `bwrite` of bio.c. A block is its 128
-- words. `cache` is what a `bread` returns: the block's buffer, or the disk's copy. The power fails
-- after `power` more block writes; from then on a write changes the cache alone.
use ele.Base.{ℕ, ◌-◌, ◌≡◌, ◌≢◌, List, arith, ◌==◌, if◌then◌else◌}

abbrev pub Block : Type 0
Block = List ℕ

abbrev pub Disk : Type 0
Disk = ℕ → Block

-- One block changed.
unfoldable pub write : Disk → ℕ → Block → Disk
write d b v a = if a == b then v else d a

pub write_self : (d : Disk) (b : ℕ) (v : Block) → write d b v b ≡ v
unfolding write
write_self d b v = ground arith

pub write_ne : (d : Disk) (b : ℕ) (v : Block) (a : ℕ) → a ≢ b → write d b v a ≡ d a
unfolding write
write_ne d b v a ne = ground arith

pub record Store : Type 0 where
  pub disk : Disk
  pub cache : Disk
  pub power : ℕ

-- The machine just after it starts: nothing is cached.
abbrev pub boot : Disk → (power : ℕ) → Store
boot d power = record { disk = d; cache = d; power = power }

unfoldable pub bread : Store → ℕ → Block
bread s b = s.cache b

-- `b->data` is assigned `v`, and `bwrite(b)` is called.
unfoldable pub bwrite : ℕ → Block → Store → Store
bwrite b v s = record {
  disk = if s.power == 0 then s.disk else write s.disk b v;
  cache = write s.cache b v;
  power = s.power - 1;
}
