-- ===== src/Bio/Ring.antt =====
-- The list of all buffers (bio.c), most recently used first: what `unlink` and `push_front`
-- make of it.
use ele.Bio.Scan.{mem-append}
use ele.Bio.{Bcache, push_front, head, nbuf, unlink, change, Buf}
use ele.Bio.Chain.{Chain, Chain-store_next, Chain-store_prev, Chain-append}
use ele.Base.{
  ℕ, ◌+◌, ◌<◌, ◌≡◌, refl, sym, ap, ◌∙◌, subst, ◌≢◌, inl, inr, true, false, ◌&&◌, not, List, [], ◌∷◌,
  ◌++◌, arith, ltb, ◌==◌, if◌then◌else◌, Bool-cases, length, mem, store, Distinct, store_ne, ==_iff,
  lt→ltb,
}

-- The list has each buffer once.
pub record IsRing (c : Bcache) (xs : List ℕ) : Type 0 where
  pub chain : Chain c.next c.prev head xs head
  pub distinct : Distinct xs
  pub members : (i : ℕ) → mem i xs ≡ ltb i nbuf
  pub sized : length xs ≡ nbuf

next-mem :
    (next prev : ℕ → ℕ) (p : ℕ) (xs : List ℕ) (q : ℕ)
    → Chain next prev p xs q
    → mem (next p) (q ∷ xs) ≡ true
next-mem next prev p [] q c = ground arith
next-mem next prev p (x ∷ xs) q c = ground arith

prev-mem :
    (next prev : ℕ → ℕ) (p : ℕ) (xs : List ℕ) (q : ℕ)
    → Chain next prev p xs q
    → mem (prev q) (p ∷ xs) ≡ true
prev-mem next prev p [] q c = ground arith
prev-mem next prev p (x ∷ xs) q c = ground (arith, prev-mem next prev x xs q c.2)

not_mem-append :
    (a : ℕ) (xs ys : List ℕ) → mem a (xs ++ ys) ≡ false → (mem a xs ≡ false) × (mem a ys ≡ false)
not_mem-append a xs ys h =
    (ground (arith, mem-append a xs ys, h), ground (arith, mem-append a xs ys, h))

mem-ne : (a b : ℕ) (xs : List ℕ) → mem a xs ≡ true → mem b xs ≡ false → a ≢ b
mem-ne a b xs h k e = cc (ap (λ x. mem x xs) e, h, k)

join :
    (next prev : ℕ → ℕ) (p : ℕ) (pre : List ℕ) (b : ℕ) (post : List ℕ) (q : ℕ)
    → Distinct (p ∷ pre ++ b ∷ post)
    → mem q (pre ++ b ∷ post) ≡ false
    → Chain next prev p pre b
    → Chain next prev b post q
    → Chain (store next (prev b) (next b)) (store prev (next b) (prev b)) p (pre ++ post) q
unfolding store
join next prev p [] b [] q d h l r = (ground arith, ground arith)
join next prev p [] b (y ∷ ys) q d h l r = (
  ground arith,
  ground arith,
  Chain-store_next next _ y ys q (prev b) (next b) (ground (arith, d.0))
      (Chain-store_prev next prev y ys q (next b) (prev b) (ground (arith, h, d.1.1.0)) r.2),
)
join next prev p (x ∷ pre) b post q d h l r =
    let others = not_mem-append p (x ∷ pre) (b ∷ post) d.0 in
    let mine = not_mem-append x pre (b ∷ post) d.1.0 in
    let ne : prev b ≢ p = mem-ne (prev b) p (x ∷ pre) (prev-mem next prev x pre b l.2) others.0 in
    let nf : next b ≢ x =
      mem-ne (next b) x (q ∷ post) (next-mem next prev b post q r) (ground (arith, h, mine.1)) in
    (ground arith, ground arith, join next prev x pre b post q d.1 (ground (arith, h)) l.2 r)

pub push_front-Chain :
    (c : Bcache) (b : ℕ) (ys : List ℕ)
    → mem b (head ∷ ys) ≡ false
    → mem head ys ≡ false
    → Distinct ys
    → Chain c.next c.prev head ys head
    → Chain (push_front b c).next (push_front b c).prev head (b ∷ ys) head
unfolding push_front store
push_front-Chain c b [] h k d l = (ground arith, ground arith, (ground arith, ground arith))
push_front-Chain c b (y ∷ ys) h k d l =
    let next' = store c.next b (c.next head) in
    let prev' = store c.prev b head in
    (
      ground arith,
      ground arith,
      (
        ground arith,
        ground arith,
        Chain-store_next next' _ y ys head head b (ground (arith, k)) (
            Chain-store_prev next' prev' y ys head (next' head) b (ground (arith, d.0, h, k)) (
              Chain-store_next c.next prev' y ys head b (c.next head) (ground (arith, h))
                (Chain-store_prev c.next c.prev y ys head b head (ground (arith, h)) l.2))),
      ),
    )

-- Where a buffer stands in the list.
split :
    (b : ℕ) (xs : List ℕ)
    → mem b xs ≡ true
    → (pre : List ℕ) × (post : List ℕ) × (xs ≡ pre ++ b ∷ post)
split b [] h = cc
split b (x ∷ xs) h = elim (Bool-cases (x == b)) [
  | inl e ↦ ([], xs, ap (λ y. y ∷ xs) ((==_iff x b).0 e))
  | inr e ↦
      let (pre, post, q) = split b xs (ground (arith, h, e)) in (x ∷ pre, post, ap (λ y. x ∷ y) q)
]

-- The list without `b`.
abbrev pub without : ℕ → List ℕ → List ℕ
without b [] = []
without b (x ∷ xs) = if x == b then xs else x ∷ without b xs

without-append :
    (b : ℕ) (pre post : List ℕ) → mem b pre ≡ false → without b (pre ++ b ∷ post) ≡ pre ++ post
without-append b [] post h = ground arith
without-append b (x ∷ pre) post h = ground (arith, h, without-append b pre post)

Distinct-middle :
    (pre : List ℕ) (b : ℕ) (post : List ℕ)
    → Distinct (pre ++ b ∷ post)
    → (mem b pre ≡ false) × (mem b post ≡ false)
Distinct-middle [] b post d = (refl, d.0)
Distinct-middle (x ∷ pre) b post d =
    let (h, k) = Distinct-middle pre b post d.1 in
    let apart = not_mem-append x pre (b ∷ post) d.0 in (ground (arith, h, apart.1), k)

mem-without :
    (a b : ℕ) (xs : List ℕ) → Distinct xs → mem a (without b xs) ≡ (mem a xs && not (b == a))
mem-without a b [] d = refl
mem-without a b (x ∷ xs) d = elim (Bool-cases (x == b)) [
  | inl e ↦ elim (Bool-cases (b == a)) [
    | inl q ↦
        let same : x ≡ a = (==_iff x b).0 e ∙ (==_iff b a).0 q in
        ground (arith, e, q, subst (λ y. mem y xs ≡ false) same d.0)
    | inr q ↦ ground (arith, e, q)
  ]
  | inr e ↦ ground (arith, e, mem-without a b xs d.1)
]

Distinct-without : (b : ℕ) (xs : List ℕ) → Distinct xs → Distinct (without b xs)
Distinct-without b [] d = tt
Distinct-without b (x ∷ xs) d = elim (Bool-cases (x == b)) [
  | inl e ↦ rw e d.1
  | inr e ↦ rw e (ground (arith, mem-without x b xs d.1, d.0), Distinct-without b xs d.1)
]

length-without : (b : ℕ) (xs : List ℕ) → mem b xs ≡ true → length (without b xs) + 1 ≡ length xs
length-without b [] h = cc
length-without b (x ∷ xs) h = ground (arith, length-without b xs)

unlink-Chain :
    (c : Bcache) (pre : List ℕ) (b : ℕ) (post : List ℕ)
    → Distinct (pre ++ b ∷ post)
    → mem head (pre ++ b ∷ post) ≡ false
    → Chain c.next c.prev head (pre ++ b ∷ post) head
    → Chain (unlink b c).next (unlink b c).prev head (pre ++ post) head
unfolding unlink
unlink-Chain c pre b post d h l =
    let (left, right) = Chain-append c.next c.prev head pre b post head l in
    let others = Distinct-middle pre b post d in
    let away : c.next b ≢ b =
      mem-ne (c.next b) b (head ∷ post) (next-mem c.next c.prev b post head right)
        (ground (arith, others.1, not_mem-append head pre (b ∷ post) h)) in
    let kept : store c.prev (c.next b) (c.prev b) b ≡ c.prev b =
      store_ne c.prev (c.next b) (c.prev b) b (ground (arith, away)) in
    subst
      (λ v.
        Chain (store c.next v (c.next b)) (store c.prev (c.next b) (c.prev b)) head (pre ++ post)
          head)
      (sym kept) (join c.next c.prev head pre b post head (h, d) h left right)

head-not_mem : {c : Bcache} {xs : List ℕ} → IsRing c xs → mem head xs ≡ false
head-not_mem r = r.members head

-- A buffer that is unlinked and put behind the head becomes the first of the list, and the others
-- keep their order.
pub to_front-IsRing :
    (c : Bcache) (b : ℕ) (xs : List ℕ)
    → b < nbuf
    → IsRing c xs
    → IsRing (push_front b (unlink b c)) (b ∷ without b xs)
to_front-IsRing c b xs l r =
    let (pre, post, q) = split b xs (r.members b ∙ lt→ltb b nbuf l) in
    let d = subst Distinct q r.distinct in
    let h = subst (λ ys. mem head ys ≡ false) q (head-not_mem r) in
    let left : without b xs ≡ pre ++ post =
      ap (without b) q ∙ without-append b pre post (Distinct-middle pre b post d).0 in
    let chain : Chain (unlink b c).next (unlink b c).prev head (without b xs) head =
      rw left (
        unlink-Chain c pre b post d h (subst (λ ys. Chain c.next c.prev head ys head) q r.chain)) in
    let gone : mem b (without b xs) ≡ false = ground (arith, mem-without b b xs r.distinct) in
    record {
      chain =
          push_front-Chain (unlink b c) b (without b xs) (ground (arith, gone))
            (ground (arith, mem-without head b xs r.distinct, head-not_mem r))
            (Distinct-without b xs r.distinct) chain;
      distinct = (gone, Distinct-without b xs r.distinct);
      members = λ i. ground (arith, mem-without i b xs r.distinct, r.members i, l);
      sized = omega (arith, length-without b xs (r.members b ∙ lt→ltb b nbuf l), r.sized);
    }

-- A change of buffers' contents.
pub change-IsRing :
    (c : Bcache) (b : ℕ) (f : Buf → Buf) (xs : List ℕ) → IsRing c xs → IsRing (change b f c) xs
unfolding change
change-IsRing c b f xs r = record {
  chain = r.chain;
  distinct = r.distinct;
  members = r.members;
  sized = r.sized;
}
