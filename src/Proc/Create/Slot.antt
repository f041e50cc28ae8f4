-- ===== src/Proc/Create/Slot.antt =====
-- Which slot `allocproc` takes, and what it leaves there.
use ele.Base.{
  ℕ, suc, ◌≡◌, ◌≢◌, refl, ◌⊎◌, inl, inr, none, some, arith, ◌==◌, find_index-Found, Found,
  NoneFound, ◌∙◌, Bool, Bool-cases, get_elem?, update, get_elem?-update_self, get_elem?-update_ne,
}
use ele.Proc.Table.{Proc, Kernel, unused, same_state, assign}
use ele.Proc.Create.{allocproc, enter_embryo}

abbrev pub is_unused : Proc → Bool
is_unused p = same_state p.state unused

-- The process that a successful `allocproc` makes of a free slot.
abbrev pub newborn : (pid kstack : ℕ) → Proc → Proc
newborn pid kstack p = record (enter_embryo pid p) { kstack = kstack }

-- What is left of the slot when there is no page for the kernel stack.
abbrev pub stillborn : (pid : ℕ) → Proc → Proc
stillborn pid p = record (enter_embryo pid p) { kstack = 0; state = unused }

-- The table and `nextpid` after one slot was claimed and rewritten.
pub record Claimed (k k' : Kernel) (i : ℕ) (p : Proc) : Type 0 where
  pub slot : get_elem? k'.table i ≡ some p
  pub others : (j : ℕ) → i ≢ j → get_elem? k'.table j ≡ get_elem? k.table j
  pub counted : k'.nextpid ≡ suc k.nextpid

module _ (k : Kernel) (i : ℕ) (pid : ℕ) (g : Proc → Proc) {p : Proc}
    (at : get_elem? k.table i ≡ some p) where
  abbrev twice : Kernel
  twice = assign (record (assign k i (enter_embryo pid)) { nextpid = suc k.nextpid }) i g

  twice-Claimed : Claimed k twice i (g (enter_embryo pid p))
  unfolding assign
  twice-Claimed = record {
    slot =
        get_elem?-update_self (update k.table i (enter_embryo pid)) i g
          (get_elem?-update_self k.table i (enter_embryo pid) at);
    others = λ j ne.
        get_elem?-update_ne (update k.table i (enter_embryo pid)) i j g ne
        ∙ get_elem?-update_ne k.table i j (enter_embryo pid) ne;
    counted = refl;
  }

-- A further assignment to the claimed slot.
pub Claimed-assign :
    (k k' : Kernel) (i : ℕ) (g : Proc → Proc) {p : Proc}
    → Claimed k k' i p
    → Claimed k (assign k' i g) i (g p)
unfolding assign
Claimed-assign k k' i g c = record {
  slot = get_elem?-update_self k'.table i g c.slot;
  others = λ j ne. get_elem?-update_ne k'.table i j g ne ∙ c.others j ne;
  counted = c.counted;
}

-- The outcomes of `allocproc`.
abbrev pub AllocResult : Kernel → (kstack : ℕ) → Type 0
AllocResult k kstack =
    ((allocproc k kstack ≡ (none, k)) × NoneFound is_unused k.table)
    ⊎ ((i : ℕ) × (f : Found is_unused k.table i) × (((kstack ≢ 0)
            × ((allocproc k kstack).0 ≡ some i)
            × Claimed k (allocproc k kstack).1 i (newborn k.nextpid kstack f.item))
          ⊎ ((kstack ≡ 0)
              × ((allocproc k kstack).0 ≡ none)
              × Claimed k (allocproc k kstack).1 i (stillborn k.nextpid f.item))))

-- Without a free slot `allocproc` returns null and changes nothing. Otherwise it claims the first
-- free slot and uses up a process number, and changes no other slot: with a kernel stack it returns
-- the slot, which holds a process of level 0 with 2 ticks and priority 0; without one it returns
-- null, and the slot is free again, but keeps the process number.
pub allocproc-Claimed : (k : Kernel) (kstack : ℕ) → AllocResult k kstack
unfolding allocproc
allocproc-Claimed k kstack = elim (find_index-Found is_unused k.table) [
  | inl (e, nothing) ↦ inl (rw (e, allocproc) refl, nothing)
  | inr (i, e, f) ↦ inr (
    i,
    f,
    elim (Bool-cases (kstack == 0)) [
      | inl z ↦ inr (
        ground arith,
        rw (e, allocproc, z) refl,
        rw (e, allocproc, z)
            (twice-Claimed k i k.nextpid (λ p. record p { kstack = 0; state = unused }) f.at),
      )
      | inr z ↦ inl (
        ground arith,
        rw (e, allocproc, z) refl,
        rw (e, allocproc, z) (twice-Claimed k i k.nextpid (λ p. record p { kstack = kstack }) f.at),
      )
    ],
  )
]
