-- ===== src/Icache/Counts.antt =====
-- References to the entries of the table of inodes (fs.c), and the changes of an entry.
use ele.Base.{
  ℕ, ◌+◌, ◌<◌, ◌≡◌, refl, sym, ap, ◌∙◌, subst, inl, inr, true, false, arith, ◌==◌, Bool-cases, pos,
  store, store_ne, ==_iff, store_self,
}
use ele.Icache.{is_empty, Icache, Entry, ninode, is_inode, recycled}

-- The references are those held, and no two entries that are held are one inode.
pub record IsCounted (entry : ℕ → Entry) (held : ℕ → ℕ) : Type 0 where
  pub counts : (k : ℕ) → k < ninode → (entry k).ref ≡ pos (held k)
  pub unique :
      (j k : ℕ)
      → j < ninode
      → k < ninode
      → 0 < held j
      → 0 < held k
      → (entry j).dev ≡ (entry k).dev
      → (entry j).node.inum ≡ (entry k).node.inum
      → j ≡ k

-- A change of entry `k` that keeps which inode it is.
module _ (entry : ℕ → Entry) (held : ℕ → ℕ) (k h : ℕ) (e : Entry) where
  kept :
      0 < held k
      → e.dev ≡ (entry k).dev
      → e.node.inum ≡ (entry k).node.inum
      → (j : ℕ)
      → ((store entry k e j).dev ≡ (entry j).dev)
        × ((store entry k e j).node.inum ≡ (entry j).node.inum)
        × (0 < store held k h j → 0 < held j)
  kept some_held d n j = elim (Bool-cases (k == j)) [
    | inl q ↦
        subst
          (λ i.
            ((store entry k e i).dev ≡ (entry i).dev)
            × ((store entry k e i).node.inum ≡ (entry i).node.inum)
            × (0 < store held k h i → 0 < held i))
          ((==_iff k j).0 q) (rw (store_self entry k e, store_self held k h) (d, n, λ x. some_held))
    | inr q ↦ rw (store_ne entry k e j q, store_ne held k h j q) (refl, refl, λ x. x)
  ]

  counts-store :
      e.ref ≡ pos h
      → ((j : ℕ) → j < ninode → (entry j).ref ≡ pos (held j))
      → (j : ℕ) → j < ninode
      → (store entry k e j).ref ≡ pos (store held k h j)
  counts-store r c j l = elim (Bool-cases (k == j)) [
    | inl q ↦
        subst (λ i. (store entry k e i).ref ≡ pos (store held k h i)) ((==_iff k j).0 q)
          (rw (store_self entry k e, store_self held k h) r)
    | inr q ↦ rw (store_ne entry k e j q, store_ne held k h j q) (c j l)
  ]

  pub IsCounted-store :
      0 < held k
      → e.ref ≡ pos h
      → e.dev ≡ (entry k).dev
      → e.node.inum ≡ (entry k).node.inum
      → IsCounted entry held
      → IsCounted (store entry k e) (store held k h)
  IsCounted-store some_held r d n a = record {
    counts = counts-store r a.counts;
    unique = λ i j li lj hi hj p q.
        let (di, ni, gi) = kept some_held d n i in
        let (dj, nj, gj) = kept some_held d n j in
        a.unique i j li lj (gi hi) (gj hj) (sym di ∙ p ∙ dj) (sym ni ∙ q ∙ nj);
  }

-- A change of an entry that keeps its references, too.
pub IsCounted-same :
    (entry : ℕ → Entry) (held : ℕ → ℕ) (k : ℕ) (e : Entry)
    → k < ninode
    → 0 < held k
    → e.ref ≡ (entry k).ref
    → e.dev ≡ (entry k).dev
    → e.node.inum ≡ (entry k).node.inum
    → IsCounted entry held
    → IsCounted (store entry k e) held
IsCounted-same entry held k e l some_held r d n a = record {
  counts = λ j m. elim (Bool-cases (k == j)) [
    | inl q ↦
        subst (λ i. (store entry k e i).ref ≡ pos (held i)) ((==_iff k j).0 q)
          (rw (store_self entry k e) (r ∙ a.counts k l))
    | inr q ↦ rw (store_ne entry k e j q) (a.counts j m)
  ];
  unique = λ i j li lj hi hj p q.
      let (di, ni, gi) = kept entry held k (held k) e some_held d n i in
      let (dj, nj, gj) = kept entry held k (held k) e some_held d n j in
      a.unique i j li lj hi hj (sym di ∙ p ∙ dj) (sym ni ∙ q ∙ nj);
}

-- A recycled entry, when no entry has the inode.
pub IsCounted-recycled :
    (dev inum k : ℕ) (c : Icache) (held : ℕ → ℕ)
    → k < ninode
    → is_empty (c.entry k) ≡ true
    → ((j : ℕ) → j < ninode → is_inode dev inum (c.entry j) ≡ false)
    → IsCounted c.entry held
    → IsCounted (store c.entry k (recycled dev inum k c)) (store held k (held k + 1))
IsCounted-recycled dev inum k c held l z absent a =
    let e = recycled dev inum k c in
    let h = held k + 1 in
    let free : held k ≡ 0 = ground (arith, z, a.counts k l) in
    let alone : (j : ℕ)
        → j < ninode
        → (k == j) ≡ false
        → 0 < store held k h j
        → (store c.entry k e j).dev ≡ dev
        → (store c.entry k e j).node.inum ≡ inum
        → ⊥ =
      λ j m ne g p q. absurd (
        ground (
          arith,
          absent j m,
          a.counts j m,
          rw (store_ne held k h j ne) at g,
          rw (store_ne c.entry k e j ne) at p,
          rw (store_ne c.entry k e j ne) at q,
        )) in
    let self : (j : ℕ)
        → (k == j) ≡ true
        → ((store c.entry k e j).dev ≡ dev) × ((store c.entry k e j).node.inum ≡ inum) =
      λ j q.
        subst (λ i. ((store c.entry k e i).dev ≡ dev) × ((store c.entry k e i).node.inum ≡ inum))
          ((==_iff k j).0 q) (rw (store_self c.entry k e) (refl, refl)) in
    record {
      counts = counts-store c.entry held k h e (ap (λ x. pos (x + 1)) (sym free)) a.counts;
      unique = λ i j li lj hi hj p q. elim (Bool-cases (k == i)) [
        | inl x ↦ elim (Bool-cases (k == j)) [
          | inl y ↦ sym ((==_iff k i).0 x) ∙ (==_iff k j).0 y
          | inr y ↦ absurd (alone j lj y hj (sym p ∙ (self i x).0) (sym q ∙ (self i x).1))
        ]
        | inr x ↦ elim (Bool-cases (k == j)) [
          | inl y ↦ absurd (alone i li x hi (p ∙ (self j y).0) (q ∙ (self j y).1))
          | inr y ↦
              a.unique i j li lj (rw (store_ne held k h i x) at hi)
                (rw (store_ne held k h j y) at hj)
                (rw (store_ne c.entry k e i x, store_ne c.entry k e j y) at p)
                (rw (store_ne c.entry k e i x, store_ne c.entry k e j y) at q)
        ]
      ];
    }
