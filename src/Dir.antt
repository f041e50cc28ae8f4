-- ===== src/Dir.antt =====
-- xv6-public/fs.c: directories, with the directory locked. A name is its bytes, from its first on, and
-- so is a `struct dirent`.
pub mod Lookup
pub mod Named
pub mod Link
pub mod Linked
mod Tests
use ele.Base.{
  ℕ, zero, suc, ◌+◌, ◌-◌, ◌*◌, ◌/◌, ◌%◌, ◌^◌, ◌≤◌, ◌<◌, ◌≡◌, refl, sym, ap, ap₂, ◌∙◌, subst, ◌≢◌,
  ◌↔◌, ◌⊎◌, inl, inr, Bool, true, false, ◌&&◌, ◌||◌, not, Option, none, some, List, [], ◌∷◌, ◌++◌,
  map, arith, dec_lt, ℕ_discrete, ltb, leb, ◌==◌, if◌then◌else◌, Bool-cases, Option-cases, length,
  get_elem?, get_or, replicate, take, drop, Outcome, done, panic, undefined, ◌>>=◌, >>=-eq-done,
  pos, negsuc, ℤ, length-append, load_short, store_short, store, eq_ℤ,
}
use ele.Icache.{Icache, iget, iput}
use ele.Inode.{Moved, moved, fails, by_device, readi, writei}
use ele.Strings.{Bytes, strncmp, strncpy}

-- `T_DIR`, and the size of `struct dirent`.
abbrev pub t_dir : ℕ
t_dir = 1

abbrev pub dirent_size : ℕ
dirent_size = 16

-- A memory with a `struct dirent` and the name after it.
abbrev pub beside : (de name : Bytes) → Bytes
beside de name x = if ltb x dirent_size then de x else name (x - dirent_size)

-- `namecmp(name, de.name)`
abbrev pub namecmp : (name de : Bytes) → ℤ
namecmp name de = strncmp dirent_size 2 14 (beside de name)

-- `readi` or `writei` returned `sizeof(de)`.
abbrev pub is_whole : Moved → Bool
is_whole fails = false
is_whole (by_device d) = false
is_whole (moved n) = n == dirent_size

-- `off += sizeof(de)`
abbrev pub next_off : ℕ → ℕ
next_off off = (off + dirent_size) % 4294967296

-- `readi(dp, (char*)&de, off, sizeof(de))` and the test of what it returns.
unfoldable pub read_entry :
    (devsw : ℕ → Bool) (dp off : ℕ) → Bytes → Icache → Outcome (Bytes × Icache)
read_entry devsw dp off de c =
    readi devsw (c.entry dp).node de off dirent_size c.fs >>= λ (r, de', ip, t).
    if is_whole r
    then done (de', record { entry = store c.entry dp (record (c.entry dp) { node = ip }); fs = t })
    else panic

-- The loop of `dirlookup`, with `*poff` and the entry of the table where it finds the name.
unfoldable pub dirlookup_loop :
    (devsw : ℕ → Bool) (fuel off dp : ℕ)
    → (name de : Bytes) → Icache
    → Outcome (Option (ℕ × ℕ) × Icache)
dirlookup_loop devsw zero off dp name de c = undefined
dirlookup_loop devsw (suc fuel) off dp name de c = elim (ltb off (c.entry dp).node.size) [
  | false ↦ done (none, c)
  | true ↦ read_entry devsw dp off de c >>= λ (de', d).
      elim (not (load_short de' 0 == 0) && eq_ℤ (namecmp name de') (pos 0)) [
        | false ↦ dirlookup_loop devsw fuel (next_off off) dp name de' d
        | true ↦ iget (d.entry dp).dev (load_short de' 0) d >>= λ (i, u). done (some (off, i), u)
      ]
]

-- `dirlookup`; a round for each entry and the last test are fewer than the fuel. `de` is what the stack
-- holds.
unfoldable pub dirlookup :
    (devsw : ℕ → Bool) (dp : ℕ) → (name de : Bytes) → Icache → Outcome (Option (ℕ × ℕ) × Icache)
dirlookup devsw dp name de c =
    if (c.entry dp).node.type == t_dir
    then dirlookup_loop devsw ((c.entry dp).node.size + 1) 0 dp name de c
    else panic

-- The loop of `dirlink` for an empty entry.
unfoldable pub empty_loop :
    (devsw : ℕ → Bool) (fuel off dp : ℕ) → (de : Bytes) → Icache → Outcome (ℕ × Bytes × Icache)
empty_loop devsw zero off dp de c = undefined
empty_loop devsw (suc fuel) off dp de c = elim (ltb off (c.entry dp).node.size) [
  | false ↦ done (off, de, c)
  | true ↦ read_entry devsw dp off de c >>= λ (de', d). elim (load_short de' 0 == 0) [
    | true ↦ done (off, de', d)
    | false ↦ empty_loop devsw fuel (next_off off) dp de' d
  ]
]

-- `strncpy(de.name, name, DIRSIZ); de.inum = inum;`
abbrev pub put_entry : (name de : Bytes) → (inum : ℕ) → Bytes
put_entry name de inum = store_short (strncpy 2 dirent_size 14 (beside de name)) 0 inum

-- `dirlink`: false stands for -1, true for 0.
unfoldable pub dirlink :
    (devsw : ℕ → Bool) (dp : ℕ) → (name de : Bytes) → (inum : ℕ) → Icache → Outcome (Bool × Icache)
dirlink devsw dp name de inum c = dirlookup devsw dp name de c >>= λ (found, d). elim found [
  | some (off, i) ↦ iput i d >>= λ u. done (false, u)
  | none ↦ empty_loop devsw ((d.entry dp).node.size + 1) 0 dp de d >>= λ (off, de', u).
      writei devsw (u.entry dp).node (put_entry name de' inum) off dirent_size u.fs
      >>= λ (r, ip, t).
          if is_whole r
          then done (
            true,
            record { entry = store u.entry dp (record (u.entry dp) { node = ip }); fs = t },
          )
          else panic
]
