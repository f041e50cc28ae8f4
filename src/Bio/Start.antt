-- ===== src/Bio/Start.antt =====
-- `binit` of bio.c: the list of all buffers.
use ele.Locks.{initsleeplock}
use ele.Bio.{Bcache, push_front, head, nbuf, binit_loop, change, binit, initsleeplock}
use ele.Bio.Chain.{Chain}
use ele.Base.{
  ℕ, zero, suc, ◌+◌, ◌≤◌, ◌≡◌, refl, ap, ◌∙◌, List, [], ◌∷◌, arith, ltb, mem, store, Distinct,
}
use ele.Bio.Ring.{IsRing, push_front-Chain}

-- The list that `binit` makes, the last buffer first.
abbrev pub counted : (n b : ℕ) → List ℕ → List ℕ
counted zero b ys = ys
counted (suc n) b ys = counted n (b + 1) (b ∷ ys)

binit_loop-Chain :
    (n b : ℕ) (c : Bcache) (ys : List ℕ)
    → b + n ≤ nbuf
    → ((i : ℕ) → mem i ys ≡ ltb i b)
    → Distinct ys
    → Chain c.next c.prev head ys head
    → Chain (binit_loop n b c).next (binit_loop n b c).prev head (counted n b ys) head
      × ((i : ℕ) → mem i (counted n b ys) ≡ ltb i (b + n))
      × Distinct (counted n b ys)
unfolding binit_loop change
binit_loop-Chain zero b c ys l m d h = (h, λ i. m i ∙ ap (ltb i) (omega arith), d)
binit_loop-Chain (suc n) b c ys l m d h =
    let c' = change b (λ x. record x { lock = initsleeplock }) c in
    let (chain, all, distinct) =
      binit_loop-Chain n (b + 1) (push_front b c') (b ∷ ys) (omega arith) (λ i. ground (arith, m i))
        (ground (arith, m b), d)
        (push_front-Chain c' b ys (ground (arith, m b)) (ground (arith, m head)) d h) in
    (chain, λ i. all i ∙ ap (ltb i) (omega arith), distinct)

-- `binit` links all buffers, whatever the arrays held.
pub binit-IsRing : (c : Bcache) → IsRing (binit c) (counted nbuf 0 [])
unfolding binit store
binit-IsRing c =
    let (chain, all, distinct) =
      binit_loop-Chain nbuf 0
        (record c { next = store c.next head head; prev = store c.prev head head }) [] (omega arith)
        (λ i. ground arith) tt (ground arith, ground arith) in
    record { chain = chain; distinct = distinct; members = all; sized = refl }
