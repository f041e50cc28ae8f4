-- ===== src/Kalloc/Range.antt =====
-- `freerange` of kalloc.c, which `kinit1` and `kinit2` call at boot.
use ele.Kalloc.Pages.{Linked, kfree-Linked}
use ele.Kalloc.{
  Memory, free_pages, is_page, page_size, kern_base, phys_top, freerange, page_round_up,
}
use ele.Base.{
  ℕ, zero, suc, ◌+◌, ◌*◌, ◌/◌, ◌%◌, ◌≤◌, ◌<◌, ◌≡◌, refl, ◌↔◌, ◌⊎◌, inl, inr, true, false, List, ◌∷◌,
  arith, leb, ◌==◌, Bool-cases, done, mem, Distinct,
}

-- A whole page from `lo` on and before `vend`.
abbrev pub PageIn : (lo vend v : ℕ) → Type 0
PageIn lo vend v = (v % page_size ≡ 0) × (lo ≤ v) × (v + page_size ≤ vend)

-- The free list of `m` has `pages` and the whole pages of the range besides, and no page twice.
pub record Frees (lo vend : ℕ) (pages : List ℕ) (m : Memory) : Type 0 where
  pub list : List ℕ
  pub linked : Linked m.word m.freelist list
  pub distinct : Distinct list
  pub all : (v : ℕ) → (mem v list ≡ true) ↔ ((mem v pages ≡ true) ⊎ PageIn lo vend v)

range-is_page :
    (kernel_end p vend : ℕ)
    → p % page_size ≡ 0
    → kernel_end ≤ p
    → kern_base ≤ p
    → vend ≤ kern_base + phys_top
    → leb (p + page_size) vend ≡ true
    → is_page kernel_end p ≡ true
unfolding is_page
range-is_page kernel_end p vend z k b t l = ground arith

Outside : (p vend : ℕ) → List ℕ → Type 0
Outside p vend pages = (v : ℕ) → mem v pages ≡ true → (v < p) ⊎ (vend ≤ v)

Outside-not_mem :
    (p vend : ℕ) (pages : List ℕ)
    → leb (p + page_size) vend ≡ true
    → Outside p vend pages
    → mem p pages ≡ false
unfolding Outside
Outside-not_mem p vend pages l o = elim (Bool-cases (mem p pages)) [
  | inl e ↦ ground (arith, o p e, l)
  | inr e ↦ e
]

Outside-cons :
    (p vend : ℕ) (pages : List ℕ) → Outside p vend pages → Outside (p + page_size) vend (p ∷ pages)
unfolding Outside
Outside-cons p vend pages o v h = elim (Bool-cases (p == v)) [
  | inl e ↦ inl (ground (arith, e))
  | inr e ↦ ground (arith, o v, h, e)
]

members-cons :
    (p vend v : ℕ) (pages : List ℕ)
    → p % page_size ≡ 0
    → leb (p + page_size) vend ≡ true
    → ((mem v (p ∷ pages) ≡ true) ⊎ PageIn (p + page_size) vend v)
      ↔ ((mem v pages ≡ true) ⊎ PageIn p vend v)
members-cons p vend v pages z l = ground arith

free_pages-Frees :
    (fuel kernel_end p vend : ℕ) (m : Memory) (pages : List ℕ)
    → 0 < fuel
    → vend < p + fuel * page_size
    → p % page_size ≡ 0
    → kernel_end ≤ p
    → kern_base ≤ p
    → vend ≤ kern_base + phys_top
    → Linked m.word m.freelist pages
    → Distinct pages
    → Outside p vend pages
    → (n : Memory) × (free_pages fuel kernel_end p vend m ≡ done n) × Frees p vend pages n
unfolding free_pages
free_pages-Frees zero kernel_end p vend m pages u f z k b t l d o = absurd (omega arith)
free_pages-Frees (suc fuel) kernel_end p vend m pages u f z k b t l d o =
    elim (Bool-cases (leb (p + page_size) vend)) [
      | inl e ↦
          let away = Outside-not_mem p vend pages e o in
          let (m', freed, l') =
            kfree-Linked kernel_end p m pages (range-is_page kernel_end p vend z k b t e) away l in
          let (n, rest, fr) =
            free_pages-Frees fuel kernel_end (p + page_size) vend m' (p ∷ pages) (ground arith)
              (ground arith) (omega arith) (omega arith) (omega arith) t l' (away, d)
              (Outside-cons p vend pages o) in
          (
            n,
            rw (e, freed) rest,
            record {
              list = fr.list;
              linked = fr.linked;
              distinct = fr.distinct;
              all = λ v. (
                λ h. (members-cons p vend v pages z e).0 ((fr.all v).0 h),
                λ h. (fr.all v).1 ((members-cons p vend v pages z e).1 h),
              );
            },
          )
      | inr e ↦ (
        m,
        rw e refl,
        record {
          list = pages;
          linked = l;
          distinct = d;
          all = λ v. (λ h. inl h, λ h. ground (arith, h, e));
        },
      )
    ]

round_up : (a : ℕ) → (page_round_up a % page_size ≡ 0) × (a ≤ page_round_up a)
unfolding page_round_up
round_up a = (omega arith, omega arith)

round_up-least : (a v : ℕ) → v % page_size ≡ 0 → a ≤ v → page_round_up a ≤ v
unfolding page_round_up
round_up-least a v z h = omega arith

from_page :
    (vstart vend v : ℕ) (pages : List ℕ)
    → vstart ≤ page_round_up vstart
    → (mem v pages ≡ true) ⊎ PageIn (page_round_up vstart) vend v
    → (mem v pages ≡ true) ⊎ PageIn vstart vend v
from_page vstart vend v pages up (inl h) = inl h
from_page vstart vend v pages up (inr (z, lo, hi)) = inr (z, omega arith, hi)

to_page :
    (vstart vend v : ℕ) (pages : List ℕ)
    → (mem v pages ≡ true) ⊎ PageIn vstart vend v
    → (mem v pages ≡ true) ⊎ PageIn (page_round_up vstart) vend v
to_page vstart vend v pages (inl h) = inl h
to_page vstart vend v pages (inr (z, lo, hi)) = inr (z, round_up-least vstart v z lo, hi)

-- For a range of kernel memory below `PHYSTOP`, `freerange` returns, and the free list then has the
-- pages it had and all whole pages of the range, no page twice, provided that it had none of those.
pub freerange-Frees :
    (kernel_end vstart vend : ℕ) (m : Memory) (pages : List ℕ)
    → kernel_end ≤ vstart
    → kern_base ≤ vstart
    → vend ≤ kern_base + phys_top
    → Linked m.word m.freelist pages
    → Distinct pages
    → ((v : ℕ) → mem v pages ≡ true → (v < vstart) ⊎ (vend ≤ v))
    → (n : Memory) × (freerange kernel_end vstart vend m ≡ done n) × Frees vstart vend pages n
unfolding freerange Outside
freerange-Frees kernel_end vstart vend m pages k b t l d o =
    let (z, up) = round_up vstart in
    let (n, e, f) =
      free_pages-Frees (vend / page_size + 1) kernel_end (page_round_up vstart) vend m pages
        (omega arith) (omega arith) z (omega arith) (omega arith) t l d
        (λ v h. ground (arith, o v h)) in
    (
      n,
      e,
      record {
        list = f.list;
        linked = f.linked;
        distinct = f.distinct;
        all = λ v. (
          λ h. from_page vstart vend v pages up ((f.all v).0 h),
          λ h. (f.all v).1 (to_page vstart vend v pages h),
        );
      },
    )
