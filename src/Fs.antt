-- ===== src/Fs.antt =====
-- xv6-public/fs.c: the blocks of the file system. The routines run inside a transaction, and a block
-- is the bytes that `bread` gives, which are those that it was last given (Bio/Coherent/Used):
-- `bread`, assignments to `bp->data`, `log_write` and `brelse` are one change of a block. There is one
-- disk, so that `dev` is left out.
pub mod Bits
pub mod Bitmap
pub mod Blocks
pub mod Free
pub mod Holders
mod Tests
use ele.Base.{
  ℕ, zero, suc, ◌+◌, ◌-◌, ◌*◌, ◌/◌, ◌%◌, ◌^◌, ◌≤◌, ◌<◌, ◌≡◌, refl, sym, ap, ap₂, ◌∙◌, subst, ◌≢◌,
  ◌↔◌, ◌⊎◌, inl, inr, Bool, true, false, ◌&&◌, ◌||◌, not, Option, none, some, List, [], ◌∷◌, ◌++◌,
  map, arith, dec_lt, ℕ_discrete, ltb, leb, ◌==◌, if◌then◌else◌, Bool-cases, Option-cases, length,
  get_elem?, get_or, replicate, take, drop, Outcome, done, panic, undefined, ◌>>=◌, >>=-eq-done,
  pos, negsuc, ℤ, length-append, store,
}
use ele.Strings.{Bytes, memset}

-- `BSIZE` of fs.h, and `BPB`, the bits of a block.
abbrev pub bsize : ℕ
bsize = 512

abbrev pub bpb : ℕ
bpb = bsize * 8

-- `struct superblock`, the fields that the routines use, and the blocks.
pub record Fs : Type 0 where
  pub size : ℕ
  pub bmapstart : ℕ
  pub inodestart : ℕ
  pub ninodes : ℕ
  pub block : ℕ → Bytes

-- `BBLOCK`
abbrev pub bblock : ℕ → Fs → ℕ
bblock b s = b / bpb + s.bmapstart

-- A change of the bytes of a block that is logged.
unfoldable pub logged : ℕ → Bytes → Fs → Fs
logged n bytes s = record s { block = store s.block n bytes }

unfoldable pub bzero : ℕ → Fs → Fs
bzero bno s = logged bno (memset 0 0 bsize (s.block bno)) s

-- `byte & (1 << k)` as a test, `byte | (1 << k)`, and `byte & ~(1 << k)`.
unfoldable pub has_bit : (k byte : ℕ) → Bool
has_bit zero byte = byte % 2 == 1
has_bit (suc k) byte = has_bit k (byte / 2)

unfoldable pub set_bit : (k byte : ℕ) → ℕ
set_bit zero byte = byte / 2 * 2 + 1
set_bit (suc k) byte = set_bit k (byte / 2) * 2 + byte % 2

unfoldable pub clear_bit : (k byte : ℕ) → ℕ
clear_bit zero byte = byte / 2 * 2
clear_bit (suc k) byte = clear_bit k (byte / 2) * 2 + byte % 2

-- The loop over the bits of a bitmap block from `bi` on, `n` of them: the first that is clear.
unfoldable pub free_bit : (n bi b size : ℕ) → Bytes → Option ℕ
free_bit zero bi b size bytes = none
free_bit (suc n) bi b size bytes =
    let rest = free_bit n (bi + 1) b size bytes in
    if not (ltb (b + bi) size)
    then none
    else if not (has_bit (bi % 8) (bytes (bi / 8)))
    then some bi
    else rest

-- The loop over the bitmap blocks from the bit of block `b` on.
unfoldable pub balloc_from : (fuel b : ℕ) → Fs → Outcome (ℕ × Fs)
balloc_from zero b s = undefined
balloc_from (suc fuel) b s =
    let bytes = s.block (bblock b s) in
    elim (ltb b s.size) [
      | false ↦ panic
      | true ↦ elim (free_bit bpb 0 b s.size bytes) [
        | none ↦ balloc_from fuel (b + bpb) s
        | some bi ↦ done (
          b + bi,
          bzero (b + bi)
              (logged (bblock b s) (store bytes (bi / 8) (set_bit (bi % 8) (bytes (bi / 8)))) s),
        )
      ]
    ]

-- `balloc`; the fuel is enough for the blocks of the bitmap and the last test.
unfoldable pub balloc : Fs → Outcome (ℕ × Fs)
balloc s = balloc_from (s.size / bpb + 2) 0 s

unfoldable pub bfree : (b : ℕ) → Fs → Outcome Fs
bfree b s =
    let bytes = s.block (bblock b s) in
    let bi = b % bpb in
    if not (has_bit (bi % 8) (bytes (bi / 8)))
    then panic
    else done (logged (bblock b s) (store bytes (bi / 8) (clear_bit (bi % 8) (bytes (bi / 8)))) s)
