-- ===== src/Paths/Walk.antt =====
-- `namex` (fs.c) walks the directories along the names of the path.
use ele.Paths.{namex_loop, namex, start_of}
use ele.Base.{
  ℕ, zero, suc, ◌<◌, ◌≡◌, refl, inl, inr, Bool, true, false, Option, none, some, List, [], ◌∷◌,
  arith, Bool-cases, Option-cases, length, ◌+◌,
}
use ele.Paths.Names.{names, skipelem-names}

-- The inode of a result.
abbrev pub inode : Option (ℕ × List ℕ) → Option ℕ
inode none = none
inode (some (ip, name)) = some ip

module _ (is_dir : ℕ → Bool) (dirlookup : ℕ → List ℕ → Option ℕ) where
  -- The inode that names lead to.
  unfoldable pub walk : (ip : ℕ) → List (List ℕ) → Option ℕ
  walk ip [] = some ip
  walk ip (n ∷ ns) = elim (is_dir ip) [
    | false ↦ none
    | true ↦ elim (dirlookup ip n) [ none ↦ none | some next ↦ walk next ns ]
  ]

  namex_loop-walk :
      (fuel ip : ℕ) (path name : List ℕ)
      → length path < fuel
      → inode (namex_loop is_dir dirlookup fuel false ip path name) ≡ walk ip (names path)
  unfolding namex_loop walk
  namex_loop-walk zero ip path name l = absurd (omega (arith, l))
  namex_loop-walk (suc fuel) ip path name l = elim (skipelem-names path) [
    | inl (e, q) ↦ rw (namex_loop, e, q) refl
    | inr (elem, rest, e, q, m) ↦ elim (Bool-cases (is_dir ip)) [
      | inr d ↦ rw (namex_loop, e, q, d, walk) refl
      | inl d ↦ elim (Option-cases (dirlookup ip elem)) [
        | inl n ↦ rw (namex_loop, e, q, d, n, walk) refl
        | inr (next, n) ↦
            rw (namex_loop, e, q, d, n, walk)
              (namex_loop-walk fuel next rest elem (omega (arith, l, m)))
      ]
    ]
  ]

  -- `namex` for the inode of a path finds the one that the names of the path lead to, from the root
  -- when the path starts with a slash and from the directory of the process otherwise.
  pub namex-walk :
      (cwd : ℕ) (path : List ℕ)
      → inode (namex is_dir dirlookup false cwd path) ≡ walk (start_of cwd path) (names path)
  unfolding namex
  namex-walk cwd path = namex_loop-walk (length path + 1) (start_of cwd path) path [] (omega arith)
