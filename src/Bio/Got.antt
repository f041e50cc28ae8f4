-- ===== src/Bio/Got.antt =====
-- What `bget` (bio.c) returns.
use ele.Bio.Scan.{first, backward, scan-first, scan-backward, first-cases, mem-append}
use ele.Bio.Ring.{IsRing}
use ele.Bio.{Bcache, Buf, bget, nbuf, is_block, change, is_unused, head}
use ele.Base.{
  ltb→lt, lt→ltb, ℕ, ◌+◌, ◌<◌, ◌≡◌, refl, sym, ap, ◌∙◌, subst, ◌⊎◌, inl, inr, Bool, true, false,
  none, some, List, [], ◌∷◌, ◌++◌, arith, ◌==◌, Bool-cases, done, panic, mem, ==_iff,
}

-- The buffer for a block that is not cached.
abbrev pub reused : (dev blockno : ℕ) → Buf → Buf
reused dev blockno x = record x {
  dev = dev;
  blockno = blockno;
  valid = false;
  dirty = false;
  refcnt = 1;
}

abbrev pub counted_once : Buf → Buf
counted_once x = record x { refcnt = x.refcnt + 1 }

-- The least recently used buffer that passes the test: those behind it in the list fail it.
pub record Oldest (test : Buf → Bool) (buf : ℕ → Buf) (xs : List ℕ) (b : ℕ) : Type 0 where
  pub newer : List ℕ
  pub older : List ℕ
  pub order : xs ≡ newer ++ b ∷ older
  pub passes : test (buf b) ≡ true
  pub last : (i : ℕ) → mem i older ≡ true → test (buf i) ≡ false

first-append :
    (test : Buf → Bool) (buf : ℕ → Buf) (xs ys : List ℕ)
    → first test buf (xs ++ ys)
      ≡ elim (first test buf xs) [ none ↦ first test buf ys | some b ↦ some b ]
first-append test buf [] ys = refl
first-append test buf (x ∷ xs) ys = ground (arith, first-append test buf xs ys)

pub first-Oldest :
    (test : Buf → Bool) (buf : ℕ → Buf) (xs : List ℕ)
    → ((first test buf (backward xs) ≡ none) × ((i : ℕ) → mem i xs ≡ true → test (buf i) ≡ false))
      ⊎ ((b : ℕ) × (first test buf (backward xs) ≡ some b) × Oldest test buf xs b)
first-Oldest test buf [] = inl (refl, λ i h. cc)
first-Oldest test buf (x ∷ xs) = elim (first-Oldest test buf xs) [
  | inr (b, e, o) ↦ inr (
    b,
    first-append test buf (backward xs) (x ∷ []) ∙ rw e refl,
    record {
      newer = x ∷ o.newer;
      older = o.older;
      order = ap (λ ys. x ∷ ys) o.order;
      passes = o.passes;
      last = o.last;
    },
  )
  | inl (n, all) ↦ elim (Bool-cases (test (buf x))) [
    | inl t ↦ inr (
      x,
      first-append test buf (backward xs) (x ∷ []) ∙ rw (n, t) refl,
      record { newer = []; older = xs; order = refl; passes = t; last = all },
    )
    | inr t ↦ inl (
      first-append test buf (backward xs) (x ∷ []) ∙ rw (n, t) refl,
      λ i h. elim (Bool-cases (x == i)) [
        | inl q ↦ subst (λ j. test (buf j) ≡ false) ((==_iff x i).0 q) t
        | inr q ↦ all i (ground (arith, h, q))
      ],
    )
  ]
]

Oldest-mem :
    {test : Buf → Bool} {buf : ℕ → Buf} {xs : List ℕ} {b : ℕ}
    → Oldest test buf xs b
    → mem b xs ≡ true
Oldest-mem {b = b} o = ap (mem b) o.order ∙ ground (arith, mem-append b o.newer (b ∷ o.older))

-- No buffer holds the block.
abbrev pub Absent : (dev blockno : ℕ) → Bcache → Type 0
Absent dev blockno c = (i : ℕ) → i < nbuf → is_block dev blockno (c.buf i) ≡ false

-- `bget` counts the buffer of the block when there is one. Otherwise it takes the least recently used
-- buffer that is neither referenced nor dirty, and panics exactly when there is none.
pub bget-cases :
    (dev blockno : ℕ) (c : Bcache) (xs : List ℕ)
    → IsRing c xs
    → ((b : ℕ) × (b < nbuf)
        × (is_block dev blockno (c.buf b) ≡ true)
        × (bget dev blockno c ≡ done (b, change b counted_once c)))
      ⊎ (Absent dev blockno c
          × (b : ℕ) × (b < nbuf)
          × Oldest is_unused c.buf xs b
          × (bget dev blockno c ≡ done (b, change b (reused dev blockno) c)))
      ⊎ (Absent dev blockno c
          × ((i : ℕ) → i < nbuf → is_unused (c.buf i) ≡ false)
          × (bget dev blockno c ≡ panic))
unfolding bget
bget-cases dev blockno c xs r =
    let forth =
      scan-first (nbuf + 1) c.next c.prev (is_block dev blockno) head xs c.buf r.chain
        (r.members head) (omega (arith, r.sized)) in
    let back =
      scan-backward (nbuf + 1) c.next c.prev is_unused xs c.buf r.chain (r.members head)
        (omega (arith, r.sized)) in
    elim (first-cases (is_block dev blockno) c.buf xs) [
      | inr (b, e, m, t) ↦
          inl (b, ltb→lt b nbuf (sym (r.members b) ∙ m), t, rw (bget, forth, e) refl)
      | inl (e, all) ↦
          let absent : Absent dev blockno c = λ i l. all i (r.members i ∙ lt→ltb i nbuf l) in
          elim (first-Oldest is_unused c.buf xs) [
            | inr (b, f, o) ↦ inr (
                inl (
                  absent,
                  b,
                  ltb→lt b nbuf (sym (r.members b) ∙ Oldest-mem o),
                  o,
                  rw (bget, forth, e, back, f) refl,
                ))
            | inl (f, busy) ↦ inr (
                inr (
                  absent,
                  λ i l. busy i (r.members i ∙ lt→ltb i nbuf l),
                  rw (bget, forth, e, back, f) refl,
                ))
          ]
    ]
