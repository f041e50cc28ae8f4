-- ===== src/Kalloc/Owners.antt =====
-- The allocator of kalloc.c in use: pages are taken, written by those who hold them, and freed.
use ele.Kalloc.Pages.{Linked, Linked-store, kalloc-Linked, kfree-Linked}
use ele.Kalloc.{kfree, is_page, kalloc, Memory}
use ele.Base.{
  ℕ, ◌≡◌, refl, sym, ap, ◌∙◌, subst, ◌≢◌, ◌⊎◌, inl, inr, Bool, true, false, List, ◌∷◌, arith, ◌==◌,
  if◌then◌else◌, Bool-cases, done, panic, mem, Distinct, ==_iff, store,
}

-- Memory and the pages that are in use.
pub record System : Type 0 where
  pub memory : Memory
  pub held : ℕ → Bool

abbrev pub holds : (ℕ → Bool) → ℕ → Bool → ℕ → Bool
holds held v b a = if v == a then b else held a

pub data Turn (kernel_end : ℕ) (s : System) : System → Type 0 where
  takes :
      {m : Memory} (v : ℕ)
      → kalloc s.memory ≡ (v, m)
      → v ≢ 0
      → Turn kernel_end s (record { memory = m; held = holds s.held v true })
  -- The holder of a page stores to it.
  fills :
      (v x : ℕ)
      → s.held v ≡ true
      → Turn kernel_end s
          (record { memory = record s.memory { word = store s.memory.word v x }; held = s.held })
  gives :
      {m : Memory} (v : ℕ)
      → s.held v ≡ true
      → kfree kernel_end v s.memory ≡ done m
      → Turn kernel_end s (record { memory = m; held = holds s.held v false })

pub data Turns (kernel_end : ℕ) (s : System) : System → Type 0 where
  here : Turns kernel_end s s
  next : {t u : System} → Turns kernel_end s t → Turn kernel_end t u → Turns kernel_end s u

-- The free list has the pages `pages`, each once; no page is both free and in use.
pub record Apart (kernel_end : ℕ) (s : System) (pages : List ℕ) : Type 0 where
  pub linked : Linked s.memory.word s.memory.freelist pages
  pub distinct : Distinct pages
  pub free : (v : ℕ) → mem v pages ≡ true → (s.held v ≡ false) × (is_page kernel_end v ≡ true)
  pub used : (v : ℕ) → s.held v ≡ true → is_page kernel_end v ≡ true

not_free :
    {kernel_end : ℕ} {s : System} {pages : List ℕ} (v : ℕ)
    → Apart kernel_end s pages
    → s.held v ≡ true
    → mem v pages ≡ false
not_free {pages = pages} v a h = elim (Bool-cases (mem v pages)) [
  | inl e ↦ cc ((a.free v e).0, h)
  | inr e ↦ e
]

mem_self : (v : ℕ) (vs : List ℕ) → mem v (v ∷ vs) ≡ true
mem_self v vs = ground arith

mem-cons : (v w : ℕ) (ws : List ℕ) → mem v ws ≡ true → mem v (w ∷ ws) ≡ true
mem-cons v w ws h = ground arith

mem-cons-ne : (v w : ℕ) (ws : List ℕ) → (w == v) ≡ false → mem v (w ∷ ws) ≡ true → mem v ws ≡ true
mem-cons-ne v w ws e h = ground arith

-- The front page of the free list is taken.
front-Apart :
    {kernel_end : ℕ} {s : System} {rest : List ℕ} (m : Memory) (w : ℕ)
    → Linked m.word m.freelist rest
    → Apart kernel_end s (w ∷ rest)
    → Apart kernel_end (record { memory = m; held = holds s.held w true }) rest
front-Apart {kernel_end} {s} {rest} m w l a = record {
  linked = l;
  distinct = a.distinct.1;
  free = λ v h. elim (Bool-cases (w == v)) [
    | inl e ↦ absurd (cc (ap (λ u. mem u rest) ((==_iff w v).0 e), h, a.distinct.0))
    | inr e ↦ rw e (a.free v (mem-cons v w rest h))
  ];
  used = λ v h. elim (Bool-cases (w == v)) [
    | inl e ↦
        subst (λ u. is_page kernel_end u ≡ true) ((==_iff w v).0 e) (a.free w (mem_self w rest)).1
    | inr e ↦ a.used v (ground (arith, h, e))
  ];
}

takes-Apart :
    {kernel_end : ℕ} {s : System} {pages : List ℕ} {m : Memory} (v : ℕ)
    → kalloc s.memory ≡ (v, m)
    → v ≢ 0
    → Apart kernel_end s pages
    → (rest : List ℕ) × Apart kernel_end (record { memory = m; held = holds s.held v true }) rest
takes-Apart {kernel_end} {s} {pages} v e nz a = elim (kalloc-Linked s.memory pages a.linked) [
  | inl (_, f) ↦ absurd (nz (ap (λ z. z.0) (sym e ∙ f)))
  | inr (w, rest, p, f, l) ↦ (
    rest,
    subst (λ z. Apart kernel_end (record { memory = z.1; held = holds s.held z.0 true }) rest)
        (sym f ∙ e)
        (front-Apart (record s.memory { freelist = s.memory.word s.memory.freelist }) w l
          (subst (λ q. Apart kernel_end s q) p a)),
  )
]

-- A page in use becomes the front of the free list.
back-Apart :
    {kernel_end : ℕ} {s : System} {pages : List ℕ} (m : Memory) (w : ℕ)
    → Linked m.word m.freelist (w ∷ pages)
    → s.held w ≡ true
    → Apart kernel_end s pages
    → Apart kernel_end (record { memory = m; held = holds s.held w false }) (w ∷ pages)
back-Apart {kernel_end} {s} {pages} m w l h a = record {
  linked = l;
  distinct = (not_free w a h, a.distinct);
  free = λ v f. elim (Bool-cases (w == v)) [
    | inl e ↦ rw e (refl, subst (λ u. is_page kernel_end u ≡ true) ((==_iff w v).0 e) (a.used w h))
    | inr e ↦ rw e (a.free v (mem-cons-ne v w pages e f))
  ];
  used = λ v u. elim (Bool-cases (w == v)) [
    | inl e ↦ ground (arith, u, e)
    | inr e ↦ a.used v (ground (arith, u, e))
  ];
}

gives-Apart :
    {kernel_end : ℕ} {s : System} {pages : List ℕ} {m : Memory} (v : ℕ)
    → s.held v ≡ true
    → kfree kernel_end v s.memory ≡ done m
    → Apart kernel_end s pages
    → Apart kernel_end (record { memory = m; held = holds s.held v false }) (v ∷ pages)
gives-Apart {kernel_end} {s} {pages} {m} v h e a =
    let (n, f, l) =
      kfree-Linked kernel_end v s.memory pages (a.used v h) (not_free v a h) a.linked in
    let same : n ≡ m = cc (e, f) in
    back-Apart m v (subst (λ x. Linked x.word x.freelist (v ∷ pages)) same l) h a

Turns-Apart :
    {kernel_end : ℕ} {s t : System} {pages : List ℕ}
    → Apart kernel_end s pages
    → Turns kernel_end s t
    → (rest : List ℕ) × Apart kernel_end t rest
Turns-Apart {pages = pages} a here = (pages, a)
Turns-Apart a (next r (takes v e nz)) = takes-Apart v e nz (Turns-Apart a r).1
Turns-Apart a (next {t = t} r (fills v x h)) =
    let (rest, b) = Turns-Apart a r in
    (
      rest,
      record {
        linked = Linked-store t.memory.word v x t.memory.freelist rest (not_free v b h) b.linked;
        distinct = b.distinct;
        free = b.free;
        used = b.used;
      },
    )
Turns-Apart a (next r (gives v h e)) =
    let (rest, b) = Turns-Apart a r in (v ∷ rest, gives-Apart v h e b)

Apart-exclusive :
    {kernel_end : ℕ} {t : System} {pages : List ℕ}
    → Apart kernel_end t pages
    → ((kalloc t.memory).0 ≡ 0)
      ⊎ ((t.held (kalloc t.memory).0 ≡ false) × (is_page kernel_end (kalloc t.memory).0 ≡ true))
Apart-exclusive {kernel_end} {t} {pages} a = elim (kalloc-Linked t.memory pages a.linked) [
  | inl (_, f) ↦ inl (ap (λ z. z.0) f)
  | inr (v, rest, p, f, _) ↦
      inr (rw f (a.free v (subst (λ q. mem v q ≡ true) (sym p) (mem_self v rest))))
]

-- However pages are taken, filled and freed by those who hold them, `kalloc` never returns a page
-- in use, and `kfree` does not panic on one.
pub Turns-exclusive :
    {kernel_end : ℕ} {s t : System} {pages : List ℕ}
    → Apart kernel_end s pages
    → Turns kernel_end s t
    → (((kalloc t.memory).0 ≡ 0)
        ⊎ ((t.held (kalloc t.memory).0 ≡ false) × (is_page kernel_end (kalloc t.memory).0 ≡ true)))
      × ((v : ℕ) → t.held v ≡ true → kfree kernel_end v t.memory ≢ panic)
Turns-exclusive {kernel_end} {t = t} a r =
    let (pages, b) = Turns-Apart a r in
    (
      Apart-exclusive b,
      λ v h p.
          let (n, f, l) =
            kfree-Linked kernel_end v t.memory pages (b.used v h) (not_free v b h) b.linked in
          cc (f, p),
    )
