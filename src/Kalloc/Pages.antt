-- ===== src/Kalloc/Pages.antt =====
-- The free list of kalloc.c as a list of pages, and what `kalloc` and `kfree` do to it.
use ele.Kalloc.{kfree, is_page, kalloc, Memory, junk}
use ele.Base.{
  ℕ, ◌≡◌, refl, sym, subst, ◌≢◌, ◌⊎◌, inl, inr, true, false, List, [], ◌∷◌, arith, ◌==◌, done, mem,
  store, store_ne, store_self,
}

-- The pages that the words link from `p` on.
abbrev pub Linked : (ℕ → ℕ) → ℕ → List ℕ → Type 0
Linked word p [] = p ≡ 0
Linked word p (x ∷ xs) = (p ≡ x) × (x ≢ 0) × Linked word (word x) xs

mem-false-cons :
    (v y : ℕ) (ys : List ℕ) → mem v (y ∷ ys) ≡ false → ((v == y) ≡ false) × (mem v ys ≡ false)
mem-false-cons v y ys h = (ground arith, ground arith)

pub Linked-store :
    (word : ℕ → ℕ) (v x p : ℕ) (pages : List ℕ)
    → mem v pages ≡ false
    → Linked word p pages
    → Linked (store word v x) p pages
Linked-store word v x p [] h l = l
Linked-store word v x p (y ∷ ys) h l =
    let (ne, rest) = mem-false-cons v y ys h in
    (
      l.0,
      l.1,
      subst (λ q. Linked (store word v x) q ys) (sym (store_ne word v x y ne))
          (Linked-store word v x (word y) ys rest l.2),
    )

is_page_pos : (kernel_end v : ℕ) → is_page kernel_end v ≡ true → v ≢ 0
unfolding is_page
is_page_pos kernel_end v h e = ground arith

-- A page that is not free goes to the front of the free list.
pub kfree-Linked :
    (kernel_end v : ℕ) (m : Memory) (pages : List ℕ)
    → is_page kernel_end v ≡ true
    → mem v pages ≡ false
    → Linked m.word m.freelist pages
    → (n : Memory) × (kfree kernel_end v m ≡ done n) × Linked n.word n.freelist (v ∷ pages)
unfolding kfree
kfree-Linked kernel_end v m pages h f l =
    let filled = store m.word v junk in
    let pos = is_page_pos kernel_end v h in
    (
      record { freelist = v; word = store filled v m.freelist },
      rw h refl,
      (
        refl,
        pos,
        subst (λ q. Linked (store filled v m.freelist) q pages)
            (sym (store_self filled v m.freelist))
            (Linked-store filled v m.freelist m.freelist pages f
              (Linked-store m.word v junk m.freelist pages f l)),
      ),
    )

-- The front page is allocated; with no free page nothing changes.
pub kalloc-Linked :
    (m : Memory) (pages : List ℕ)
    → Linked m.word m.freelist pages
    → ((pages ≡ []) × (kalloc m ≡ (0, m)))
      ⊎ ((v : ℕ) × (rest : List ℕ) × (pages ≡ v ∷ rest)
          × (kalloc m ≡ (v, record m { freelist = m.word m.freelist }))
          × Linked m.word (m.word m.freelist) rest)
unfolding kalloc
kalloc-Linked m [] l = inl (refl, ground (arith, l))
kalloc-Linked m (v ∷ rest) l =
    inr (v, rest, refl, ground (arith, l), subst (λ p. Linked m.word (m.word p) rest) (sym l.0) l.2)
