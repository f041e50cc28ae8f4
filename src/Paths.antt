-- ===== src/Paths.antt =====
-- The path names of xv6-public/fs.c. A path is the list of its bytes before the NUL, and so is a name.
-- An inode is its number. What the directories hold is a parameter: the numbers of the directories,
-- and what `dirlookup` finds for a name in one.
pub mod Names
pub mod Walk
mod Tests
use ele.Base.{
  ℕ, zero, suc, ◌+◌, ◌-◌, ◌*◌, ◌/◌, ◌%◌, ◌^◌, ◌≤◌, ◌<◌, ◌≡◌, refl, sym, ap, ap₂, ◌∙◌, subst, ◌≢◌,
  ◌↔◌, ◌⊎◌, inl, inr, Bool, true, false, ◌&&◌, ◌||◌, not, Option, none, some, List, [], ◌∷◌, ◌++◌,
  map, arith, dec_lt, ℕ_discrete, ltb, leb, ◌==◌, if◌then◌else◌, Bool-cases, Option-cases, length,
  get_elem?, get_or, replicate, take, drop, Outcome, done, panic, undefined, ◌>>=◌, >>=-eq-done,
  pos, negsuc, ℤ, length-append,
}

-- `DIRSIZ` of fs.h, and '/'.
abbrev pub dirsiz : ℕ
dirsiz = 14

abbrev pub slash : ℕ
slash = 47

-- `while(*path == '/') path++;`
unfoldable pub skip_slashes : List ℕ → List ℕ
skip_slashes [] = []
skip_slashes (c ∷ cs) = if c == slash then skip_slashes cs else c ∷ cs

-- What `while(*path != '/' && *path != 0) path++;` passes, and where it stops.
unfoldable pub passed : List ℕ → List ℕ
passed [] = []
passed (c ∷ cs) = if c == slash then [] else c ∷ passed cs

unfoldable pub stopped : List ℕ → List ℕ
stopped [] = []
stopped (c ∷ cs) = if c == slash then c ∷ cs else stopped cs

-- `name`, cut to `DIRSIZ` bytes.
abbrev pub copy_name : List ℕ → List ℕ
copy_name s = if leb dirsiz (length s) then take dirsiz s else take (length s) s

-- The name of the next element and what follows it.
unfoldable pub skipelem : List ℕ → Option (List ℕ × List ℕ)
skipelem path = elim (skip_slashes path) [
  | [] ↦ none
  | c ∷ cs ↦ some (copy_name (passed (c ∷ cs)), skip_slashes (stopped (c ∷ cs)))
]

-- The inode at which `namex` starts: `ROOTINO`, or the directory of the process.
abbrev pub start_of : (cwd : ℕ) → List ℕ → ℕ
start_of cwd [] = cwd
start_of cwd (c ∷ cs) = if c == slash then 1 else cwd

module _ (is_dir : ℕ → Bool) (dirlookup : ℕ → List ℕ → Option ℕ) where
  -- The loop of `namex` at the inode `ip`; it returns the inode and, in `name`, the last element.
  unfoldable pub namex_loop :
      (fuel : ℕ) → (nameiparent : Bool) → (ip : ℕ) → (path name : List ℕ) → Option (ℕ × List ℕ)
  namex_loop zero nameiparent ip path name = none
  namex_loop (suc fuel) nameiparent ip path name = elim (skipelem path) [
    | none ↦ if nameiparent then none else some (ip, name)
    | some (elem, rest) ↦ elim (is_dir ip) [
      | false ↦ none
      | true ↦ elim (nameiparent && length rest == 0) [
        | true ↦ some (ip, elem)
        | false ↦ elim (dirlookup ip elem) [
          | none ↦ none
          | some next ↦ namex_loop fuel nameiparent next rest elem
        ]
      ]
    ]
  ]

  -- The fuel is enough for each byte.
  unfoldable pub namex : (nameiparent : Bool) → (cwd : ℕ) → (path : List ℕ) → Option (ℕ × List ℕ)
  namex nameiparent cwd path = namex_loop (length path + 1) nameiparent (start_of cwd path) path []
