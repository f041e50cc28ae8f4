-- ===== src/Log/Header.antt =====
-- The header block holds what was last written to it.
use ele.Log.Store.{Block}
use ele.Log.Commit.{get_header, put_header, read_words, write_words}
use ele.Base.{
  ℕ, suc, ◌+◌, ◌≤◌, ◌<◌, ◌≡◌, refl, ◌∙◌, List, [], ◌∷◌, arith, length, get_or, set, get_or-set_ne,
  get_or-set_self, length-set, ap₂,
}

length-write_words : (i : ℕ) (hs : List ℕ) (b : Block) → length (write_words i hs b) ≡ length b
unfolding write_words
length-write_words i [] b = refl
length-write_words i (h ∷ hs) b =
    length-write_words (suc i) hs (set b (1 + i) h) ∙ length-set b (1 + i) h

-- The words below the written ones stay.
write_words-below :
    (i : ℕ) (hs : List ℕ) (b : Block) (j : ℕ)
    → j ≤ i
    → get_or (write_words i hs b) j 0 ≡ get_or b j 0
unfolding write_words
write_words-below i [] b j h = refl
write_words-below i (x ∷ hs) b j h =
    write_words-below (suc i) hs (set b (1 + i) x) j (omega arith)
    ∙ get_or-set_ne b {i = 1 + i} {j = j} x 0 (omega arith)

read_words-write_words :
    (i : ℕ) (hs : List ℕ) (b : Block)
    → i + length hs < length b
    → read_words (length hs) i (write_words i hs b) ≡ hs
unfolding read_words write_words
read_words-write_words i [] b h = refl
read_words-write_words i (x ∷ hs) b h =
    ap₂ (λ (y : ℕ) (ys : List ℕ). y ∷ ys)
      (write_words-below (suc i) hs (set b (1 + i) x) (1 + i) (omega arith)
        ∙ get_or-set_self b (1 + i) x 0 (omega arith))
      (read_words-write_words (suc i) hs (set b (1 + i) x) (omega (arith, length-set b (1 + i) x)))

-- What `write_head` writes to the header block is what `read_head` reads from it, as long as the
-- numbers fit into the block.
pub get_header-put_header :
    (lh : List ℕ) (b : Block) → length lh < length b → get_header (put_header lh b) ≡ lh
unfolding get_header put_header
get_header-put_header lh b h =
    rw
      (
        write_words-below 0 lh (set b 0 (length lh)) 0 (omega arith),
        get_or-set_self b 0 (length lh) 0 (omega arith),
      )
      (read_words-write_words 0 lh (set b 0 (length lh))
        (omega (arith, length-set b 0 (length lh))))

pub length-put_header : (lh : List ℕ) (b : Block) → length (put_header lh b) ≡ length b
unfolding put_header
length-put_header lh b = length-write_words 0 lh (set b 0 (length lh)) ∙ length-set b 0 (length lh)
