-- ===== src/Icache.antt =====
-- xv6-public/fs.c: the table of inodes in memory. A pointer to an inode of the table is its index.
-- The lock of an inode is left out: a routine that takes it is a step that its holder makes, and
-- `iput`, which gives the lock up before it counts down, is two steps.
pub mod Find
pub mod Counts
pub mod Last
pub mod Alloc
pub mod Holders
mod Tests
use ele.Base.{
  ℕ, zero, suc, ◌+◌, ◌-◌, ◌*◌, ◌/◌, ◌%◌, ◌^◌, ◌≤◌, ◌<◌, ◌≡◌, refl, sym, ap, ap₂, ◌∙◌, subst, ◌≢◌,
  ◌↔◌, ◌⊎◌, inl, inr, Bool, true, false, ◌&&◌, ◌||◌, not, Option, none, some, List, [], ◌∷◌, ◌++◌,
  map, arith, dec_lt, ℕ_discrete, ltb, leb, ◌==◌, if◌then◌else◌, Bool-cases, Option-cases, length,
  get_elem?, get_or, replicate, take, drop, Outcome, done, panic, undefined, ◌>>=◌, >>=-eq-done,
  pos, negsuc, ℤ, length-append, increment, decrement, ltb_ℤ, store, eq_ℤ, load_short, store_short,
}
use ele.Inode.{dinode_at, dinode_size, iblock, Inode, iupdate, read_inode}
use ele.Inode.Trunc.{itrunc}
use ele.Fs.{Fs, logged}
use ele.Strings.{memset}

-- `NINODE`
abbrev pub ninode : ℕ
ninode = 50

-- `struct inode`; `node` has the fields of the disk and `inum`.
pub record Entry : Type 0 where
  pub dev : ℕ
  pub ref : ℤ
  pub valid : Bool
  pub node : Inode

-- `icache`, and the file system.
pub record Icache : Type 0 where
  pub entry : ℕ → Entry
  pub fs : Fs

unfoldable pub set_entry : ℕ → Entry → Icache → Icache
set_entry i e c = record c { entry = store c.entry i e }

abbrev pub is_inode : (dev inum : ℕ) → Entry → Bool
is_inode dev inum e = ltb_ℤ (pos 0) e.ref && (e.dev == dev && e.node.inum == inum)

abbrev pub is_empty : Entry → Bool
is_empty e = eq_ℤ e.ref (pos 0)

-- `ip->ref++`
unfoldable pub idup : ℕ → Icache → Icache
idup i c = set_entry i (record (c.entry i) { ref = increment (c.entry i).ref }) c

-- `if(empty == 0 && ip->ref == 0) empty = ip;`
abbrev pub next_empty : Option ℕ → ℕ → Icache → Option ℕ
next_empty none i c = if is_empty (c.entry i) then some i else none
next_empty (some e) i c = some e

-- The entry `i` recycled.
abbrev pub recycled : (dev inum i : ℕ) → Icache → Entry
recycled dev inum i c = record {
  dev = dev;
  ref = pos 1;
  valid = false;
  node = record (c.entry i).node { inum = inum };
}

-- The loop of `iget` from entry `i` on, and what follows it.
unfoldable pub iget_loop : (n i dev inum : ℕ) → (empty : Option ℕ) → Icache → Outcome (ℕ × Icache)
iget_loop zero i dev inum none c = panic
iget_loop zero i dev inum (some e) c = done (e, set_entry e (recycled dev inum e c) c)
iget_loop (suc n) i dev inum empty c = elim (is_inode dev inum (c.entry i)) [
  | true ↦ done (i, idup i c)
  | false ↦ iget_loop n (i + 1) dev inum (next_empty empty i c) c
]

unfoldable pub iget : (dev inum : ℕ) → Icache → Outcome (ℕ × Icache)
iget dev inum c = iget_loop ninode 0 dev inum none c

-- `ilock`, once it has the lock.
unfoldable pub ilock : ℕ → Icache → Outcome Icache
ilock i c =
    let e = c.entry i in
    if ltb_ℤ e.ref (pos 1)
    then panic
    else if e.valid
    then done c
    else (read_inode e.node.inum c.fs >>= λ ip.
        done (set_entry i (record e { valid = true; node = ip }) c))

-- `iput` up to `releasesleep`.
unfoldable pub iput_free : ℕ → Icache → Outcome Icache
iput_free i c =
    let e = c.entry i in
    if e.valid && (e.node.nlink == 0 && eq_ℤ e.ref (pos 1))
    then (itrunc e.node c.fs >>= λ (cut, t).
        let gone = record cut { type = 0 } in
        done (record {
          entry = store c.entry i (record e { valid = false; node = gone });
          fs = iupdate gone t;
        }))
    else done c

-- The rest of `iput`: `ip->ref--`
unfoldable pub iput_drop : ℕ → Icache → Icache
iput_drop i c = set_entry i (record (c.entry i) { ref = decrement (c.entry i).ref }) c

unfoldable pub iput : ℕ → Icache → Outcome Icache
iput i c = iput_free i c >>= λ d. done (iput_drop i d)

-- The loop of `ialloc` from the inode `inum` on.
unfoldable pub ialloc_loop : (fuel inum dev type : ℕ) → Icache → Outcome (ℕ × Icache)
ialloc_loop zero inum dev type c = undefined
ialloc_loop (suc fuel) inum dev type c = elim (ltb inum c.fs.ninodes) [
  | false ↦ panic
  | true ↦
      let m = c.fs.block (iblock inum c.fs) in
      let d = dinode_at inum in
      elim (load_short m d == 0) [
        | false ↦ ialloc_loop fuel (inum + 1) dev type c
        | true ↦ iget dev inum (record c {
          fs = logged (iblock inum c.fs) (store_short (memset d 0 dinode_size m) d type) c.fs;
        })
      ]
]

-- `ialloc`; a round for each inode after the first, and the last test.
unfoldable pub ialloc : (dev type : ℕ) → Icache → Outcome (ℕ × Icache)
ialloc dev type c = ialloc_loop (c.fs.ninodes + 1) 1 dev type c
