-- ===== src/Bio/Chain.antt =====
-- Doubly linked lists in the arrays `next` and `prev` of the buffer cache (bio.c).
use ele.Base.{ℕ, ◌≡◌, false, List, [], ◌∷◌, ◌++◌, arith, store, mem}

-- The buffers `xs` stand in this order between the nodes `p` and `q`, linked both ways.
abbrev pub Chain : (next prev : ℕ → ℕ) → (p : ℕ) → List ℕ → (q : ℕ) → Type 0
Chain next prev p [] q = (next p ≡ q) × (prev q ≡ p)
Chain next prev p (x ∷ xs) q = (next p ≡ x) × (prev x ≡ p) × Chain next prev x xs q

pub Chain-append :
    (next prev : ℕ → ℕ) (p : ℕ) (xs : List ℕ) (x : ℕ) (ys : List ℕ) (q : ℕ)
    → Chain next prev p (xs ++ x ∷ ys) q
    → Chain next prev p xs x × Chain next prev x ys q
Chain-append next prev p [] x ys q c = ((c.0, c.1), c.2)
Chain-append next prev p (y ∷ xs) x ys q c =
    let (l, r) = Chain-append next prev y xs x ys q c.2 in ((c.0, c.1, l), r)

pub append-Chain :
    (next prev : ℕ → ℕ) (p : ℕ) (xs : List ℕ) (x : ℕ) (ys : List ℕ) (q : ℕ)
    → Chain next prev p xs x
    → Chain next prev x ys q
    → Chain next prev p (xs ++ x ∷ ys) q
append-Chain next prev p [] x ys q l r = (l.0, l.1, r)
append-Chain next prev p (y ∷ xs) x ys q l r = (l.0, l.1, append-Chain next prev y xs x ys q l.2 r)

-- A store to `next` of a node outside `p ∷ xs`, or to `prev` of one outside `xs` and `q`.
pub Chain-store_next :
    (next prev : ℕ → ℕ) (p : ℕ) (xs : List ℕ) (q v w : ℕ)
    → mem v (p ∷ xs) ≡ false
    → Chain next prev p xs q
    → Chain (store next v w) prev p xs q
unfolding store
Chain-store_next next prev p [] q v w h c = ground arith
Chain-store_next next prev p (x ∷ xs) q v w h c =
    (ground arith, c.1, Chain-store_next next prev x xs q v w (ground arith) c.2)

pub Chain-store_prev :
    (next prev : ℕ → ℕ) (p : ℕ) (xs : List ℕ) (q v w : ℕ)
    → mem v (q ∷ xs) ≡ false
    → Chain next prev p xs q
    → Chain next (store prev v w) p xs q
unfolding store
Chain-store_prev next prev p [] q v w h c = ground arith
Chain-store_prev next prev p (x ∷ xs) q v w h c =
    (c.0, ground arith, Chain-store_prev next prev x xs q v w (ground arith) c.2)
