-- ===== src/Kalloc.antt =====
-- xv6-public/kalloc.c: the allocator of physical pages. Of memory it has the first word of each
-- page, where a free page keeps the address of the next one. Addresses are `uint` values, 0 is null.
-- `kernel_end` is the symbol `end` of the linker script. The lock is not modelled.
pub mod Pages
pub mod Owners
pub mod Range
mod Tests
use ele.Base.{
  ℕ, zero, suc, ◌+◌, ◌-◌, ◌*◌, ◌/◌, ◌%◌, ◌^◌, ◌≤◌, ◌<◌, ◌≡◌, refl, sym, ap, ap₂, ◌∙◌, subst, ◌≢◌,
  ◌↔◌, ◌⊎◌, inl, inr, Bool, true, false, ◌&&◌, ◌||◌, not, Option, none, some, List, [], ◌∷◌, ◌++◌,
  map, arith, dec_lt, ℕ_discrete, ltb, leb, ◌==◌, if◌then◌else◌, Bool-cases, Option-cases, length,
  get_elem?, get_or, replicate, take, drop, Outcome, done, panic, undefined, ◌>>=◌, >>=-eq-done,
  pos, negsuc, ℤ, length-append, store,
}

-- `PGSIZE`, `PHYSTOP` and `KERNBASE` of mmu.h and memlayout.h.
abbrev pub page_size : ℕ
page_size = 4096

abbrev pub phys_top : ℕ
phys_top = 234881024

abbrev pub kern_base : ℕ
kern_base = 2147483648

-- `V2P` on `uint`.
abbrev pub v2p : ℕ → ℕ
v2p v = (v + 4294967296 - kern_base) % 4294967296

-- `kmem.freelist`, and memory.
pub record Memory : Type 0 where
  pub freelist : ℕ
  pub word : ℕ → ℕ

-- The test of `kfree`.
unfoldable pub is_page : (kernel_end : ℕ) → ℕ → Bool
is_page kernel_end v = (v % page_size == 0) && not (ltb v kernel_end) && ltb (v2p v) phys_top

-- The word that `memset(v, 1, PGSIZE)` leaves.
abbrev pub junk : ℕ
junk = 16843009

unfoldable pub kfree : (kernel_end : ℕ) → ℕ → Memory → Outcome Memory
kfree kernel_end v m =
    let filled = store m.word v junk in
    if is_page kernel_end v
    then done (record { freelist = v; word = store filled v m.freelist })
    else panic

unfoldable pub kalloc : Memory → ℕ × Memory
kalloc m =
    if m.freelist == 0 then (0, m) else (m.freelist, record m { freelist = m.word m.freelist })

-- `PGROUNDUP`
unfoldable pub page_round_up : ℕ → ℕ
page_round_up a = (a + page_size - 1) / page_size * page_size

-- The loop of `freerange`, at the page `p`; it stops by the test of the source or runs out of fuel.
unfoldable pub free_pages : (fuel kernel_end p vend : ℕ) → Memory → Outcome Memory
free_pages zero kernel_end p vend m = undefined
free_pages (suc fuel) kernel_end p vend m =
    let next = kfree kernel_end p m >>= free_pages fuel kernel_end (p + page_size) vend in
    if leb (p + page_size) vend then next else done m

-- As many rounds as `vend` has pages are enough.
unfoldable pub freerange : (kernel_end vstart vend : ℕ) → Memory → Outcome Memory
freerange kernel_end vstart vend m =
    free_pages (vend / page_size + 1) kernel_end (page_round_up vstart) vend m
