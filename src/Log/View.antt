-- ===== src/Log/View.antt =====
-- What a disk with a log stands for: a block that the header lists has the content of its log block.
use ele.Log.Commit.{get_header}
use ele.Log.Store.{Disk, Block}
use ele.Base.{
  ℕ, suc, ◌+◌, ◌≤◌, ◌<◌, ◌≡◌, refl, ap, ◌∙◌, ◌⊎◌, inl, inr, true, false, List, [], ◌∷◌, arith, ◌==◌,
  if◌then◌else◌, length, dec_lt, subst, sym, mem,
}

-- The blocks of a transaction are outside the log, which has `size` blocks from `start` on.
abbrev pub IsHome : (start size a : ℕ) → Type 0
IsHome start size a = (a < start) ⊎ (start + size ≤ a)

abbrev pub AllHome : (start size : ℕ) → List ℕ → Type 0
AllHome start size [] = Unit {0}
AllHome start size (b ∷ bs) = IsHome start size b × AllHome start size bs

-- Block `a` as the header entries from index `tail` on give it.
unfoldable pub look : (start : ℕ) → Disk → (tail : ℕ) → List ℕ → (a : ℕ) → Block
look start d tail [] a = d a
look start d tail (b ∷ bs) a = if b == a then d (start + tail + 1) else look start d (suc tail) bs a

unfoldable pub header : (start : ℕ) → Disk → List ℕ
header start d = get_header (d start)

-- The logical content of a block.
pub view : (start : ℕ) → Disk → (a : ℕ) → Block
unfolding header look
view start d a = look start d 0 (header start d) a

pub header_lem : (start : ℕ) (d : Disk) → header start d ≡ get_header (d start)
unfolding header
header_lem start d = refl

pub view_lem :
    (start : ℕ) (d : Disk) (hs : List ℕ) (a : ℕ)
    → header start d ≡ hs
    → view start d a ≡ look start d 0 hs a
unfolding view
view_lem start d hs a e = ap (λ (h : List ℕ). look start d 0 h a) e

pub look-not_mem :
    (start : ℕ) (d : Disk) (tail : ℕ) (bs : List ℕ) (a : ℕ)
    → mem a bs ≡ false
    → look start d tail bs a ≡ d a
unfolding look
look-not_mem start d tail [] a h = refl
look-not_mem start d tail (b ∷ bs) a h = ground (arith, look-not_mem start d (suc tail) bs a)

-- Two disks with the same log blocks and the same block `a`.
pub look-congr :
    (start : ℕ) (d e : Disk) (tail : ℕ) (bs : List ℕ) (a : ℕ)
    → ((b : ℕ) → start + tail < b → b ≤ start + tail + length bs → d b ≡ e b)
    → (d a ≡ e a) ⊎ (mem a bs ≡ true)
    → look start d tail bs a ≡ look start e tail bs a
unfolding look
look-congr start d e tail [] a h (inl q) = q
look-congr start d e tail [] a h (inr q) = cc
look-congr start d e tail (b ∷ bs) a h q = ground (
  arith,
  h (start + tail + 1),
  look-congr start d e (suc tail) bs a (λ c l m. h c (omega arith) (omega arith)),
)

-- The log blocks from index `tail` on hold the contents of the listed blocks in `src`.
abbrev pub Copied : (start : ℕ) → (d src : Disk) → (tail : ℕ) → List ℕ → Type 0
Copied start d src tail [] = Unit {0}
Copied start d src tail (b ∷ bs) = (d (start + tail + 1) ≡ src b) × Copied start d src (suc tail) bs

pub Copied-congr :
    (start size : ℕ) (d e src : Disk) (tail : ℕ) (bs : List ℕ)
    → AllHome start size bs
    → ((a : ℕ) → IsHome start size a → e a ≡ src a)
    → Copied start d e tail bs
    → Copied start d src tail bs
Copied-congr start size d e src tail [] h q c = tt
Copied-congr start size d e src tail (b ∷ bs) h q c =
    (c.0 ∙ q b h.0, Copied-congr start size d e src (suc tail) bs h.1 q c.1)

-- A listed block is seen with its content in `src`.
pub look-Copied :
    (start : ℕ) (d src : Disk) (tail : ℕ) (bs : List ℕ) (a : ℕ)
    → Copied start d src tail bs
    → (d a ≡ src a) ⊎ (mem a bs ≡ true)
    → look start d tail bs a ≡ src a
unfolding look
look-Copied start d src tail [] a c (inl e) = e
look-Copied start d src tail [] a c (inr e) = cc
look-Copied start d src tail (b ∷ bs) a c e =
    ground (arith, look-Copied start d src (suc tail) bs a c.1)

-- Two disks whose log blocks hold the same contents.
pub Copied-agree :
    (start : ℕ) (d e src : Disk) (tail : ℕ) (bs : List ℕ) (c : ℕ)
    → Copied start d src tail bs
    → Copied start e src tail bs
    → start + tail < c
    → c ≤ start + tail + length bs
    → d c ≡ e c
Copied-agree start d e src tail [] c p q l m = absurd (omega arith)
Copied-agree start d e src tail (b ∷ bs) c p q l m = elim (dec_lt (start + tail + 1) c) [
  | yes n ↦ Copied-agree start d e src (suc tail) bs c p.1 q.1 (omega arith) (omega arith)
  | no n ↦ subst (λ k. d k ≡ e k) {x = start + tail + 1} {y = c} (omega arith) (p.0 ∙ sym q.0)
]
