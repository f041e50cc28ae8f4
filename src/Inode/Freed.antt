-- ===== src/Inode/Freed.antt =====
-- The blocks that the loops of `itrunc` (fs.c) free, one after another.
use ele.Fs.Blocks.{bfree-used}
use ele.Inode.Slots.{IsPlaced, nslot}
use ele.Base.{
  ℕ, zero, suc, ◌+◌, ◌≤◌, ◌<◌, ◌≡◌, refl, ap, ◌∙◌, subst, ◌≢◌, inl, inr, Bool, false, ◌&&◌, ◌||◌,
  not, arith, ◌==◌, Bool-cases, done, store_ne,
}
use ele.Fs.Bitmap.{used, cleared, used-cleared}
use ele.Fs.{logged, Fs, bblock, bfree}

-- One of the first `k` slots has block `i`.
unfoldable pub has_block : (slots : ℕ → ℕ) → (k i : ℕ) → Bool
has_block slots zero i = false
has_block slots (suc k) i = has_block slots k i || (not (slots k == 0) && slots k == i)

-- `u` is `s` with the blocks of the first `k` slots freed.
pub record Freed (slots : ℕ → ℕ) (s : Fs) (k : ℕ) (u : Fs) : Type 0 where
  pub sizes : u.size ≡ s.size
  pub starts : u.bmapstart ≡ s.bmapstart
  pub inodes : u.inodestart ≡ s.inodestart
  pub bits : (i : ℕ) → i < s.size → used u i ≡ (used s i && not (has_block slots k i))
  pub others : (m : ℕ) → ((i : ℕ) → i < s.size → (m == bblock i s) ≡ false) → u.block m ≡ s.block m

pub Freed-none : (slots : ℕ → ℕ) (s : Fs) → Freed slots s 0 s
unfolding has_block
Freed-none slots s = record {
  sizes = refl;
  starts = refl;
  inodes = refl;
  bits = λ i l. ground arith;
  others = λ m h. refl;
}

-- Slots without a block.
pub Freed-skip :
    (slots : ℕ → ℕ) (s : Fs) (k : ℕ) (u : Fs)
    → slots k ≡ 0
    → Freed slots s k u
    → Freed slots s (suc k) u
unfolding has_block
Freed-skip slots s k u z f = record {
  sizes = f.sizes;
  starts = f.starts;
  inodes = f.inodes;
  bits = λ i l. f.bits i l ∙ ground (arith, z);
  others = f.others;
}

pub Freed-skips :
    (n : ℕ) (slots : ℕ → ℕ) (s : Fs) (k : ℕ) (u : Fs)
    → ((j : ℕ) → k ≤ j → j < k + n → slots j ≡ 0)
    → Freed slots s k u
    → Freed slots s (k + n) u
Freed-skips zero slots s k u z f = subst (λ j. Freed slots s j u) (omega arith) f
Freed-skips (suc n) slots s k u z f =
    let next : suc k + n ≡ k + suc n = omega arith in
    subst (λ j. Freed slots s j u) next
      (Freed-skips n slots s (suc k) u (λ j l h. z j (omega (arith, l)) (omega (arith, h)))
        (Freed-skip slots s k u (z k (omega arith) (omega arith)) f))

module _ (slots : ℕ → ℕ) (s : Fs) (iblk : ℕ) (p : IsPlaced s iblk slots) where
  -- A block is in no other slot.
  has_block-not : (k j : ℕ) → k ≤ j → j < nslot → slots j ≢ 0 → has_block slots k (slots j) ≡ false
  unfolding has_block
  has_block-not zero j l h ne = refl
  has_block-not (suc k) j l h ne =
      let before = has_block-not k j (omega (arith, l)) h ne in
      elim (Bool-cases (slots k == slots j)) [
        | inr e ↦ rw (before, e) (ground arith)
        | inl e ↦
            let same : slots j ≡ slots k = ground (arith, e) in
            absurd (omega (arith, l, p.distinct j k h (omega (arith, l, h)) ne same))
      ]

  -- `bfree` of the block of the next slot.
  pub Freed-next :
      (k : ℕ) (u : Fs)
      → k < nslot
      → slots k ≢ 0
      → Freed slots s k u
      → (bfree (slots k) u ≡ done (cleared (slots k) u))
        × Freed slots s (suc k) (cleared (slots k) u)
  unfolding has_block logged
  Freed-next k u l ne f =
      let c = p.content k l ne in
      let fresh = has_block-not k k (omega arith) l ne in
      let n = slots k in
      (
        bfree-used n u (f.bits n c.within ∙ rw (c.marked, fresh) refl),
        record {
          sizes = f.sizes;
          starts = f.starts;
          inodes = f.inodes;
          bits = λ i h.
              used-cleared n u i ∙ ap (λ x. not (n == i) && x) (f.bits i h) ∙ ground (arith, ne);
          others = λ m h.
              store_ne u.block (bblock n u) _ m (ground (arith, h n c.within, f.starts))
              ∙ f.others m h;
        },
      )
