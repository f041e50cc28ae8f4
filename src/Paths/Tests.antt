-- ===== src/Paths/Tests.antt =====
-- The examples of fs.c, a walk, and the theorems at them.
use ele.Paths.{namex, skipelem, namex_loop, skip_slashes, start_of, passed, stopped}
use ele.Base.{
  ℕ, ◌≡◌, refl, Bool, true, false, ◌&&◌, ◌||◌, Option, none, some, List, [], ◌∷◌, ◌==◌,
  if◌then◌else◌,
}
use ele.Paths.Names.{names}
use ele.Paths.Walk.{walk, inode, namex-walk}

-- "a/bb/c", "///a//bb", "////".
abbrev plain : List ℕ
plain = 97 ∷ 47 ∷ 98 ∷ 98 ∷ 47 ∷ 99 ∷ []

abbrev slashes : List ℕ
slashes = 47 ∷ 47 ∷ 47 ∷ 97 ∷ 47 ∷ 47 ∷ 98 ∷ 98 ∷ []

examples :
    (skipelem plain ≡ some (97 ∷ [], 98 ∷ 98 ∷ 47 ∷ 99 ∷ []))
    × (skipelem slashes ≡ some (97 ∷ [], 98 ∷ 98 ∷ []))
    × (skipelem (97 ∷ []) ≡ some (97 ∷ [], []))
    × (skipelem (47 ∷ 47 ∷ 47 ∷ 47 ∷ []) ≡ none)
unfolding skipelem skip_slashes passed stopped
examples = (refl, refl, refl, refl)

-- The root has the directory "a", number 5, which has the file "bb", number 6.
abbrev is_dir : ℕ → Bool
is_dir ip = ip == 1 || ip == 5

abbrev dirlookup : ℕ → List ℕ → Option ℕ
dirlookup ip [] = none
dirlookup ip (c ∷ cs) =
    if ip == 1 && c == 97 then some 5 else if ip == 5 && c == 98 then some 6 else none

found : namex is_dir dirlookup false 9 slashes ≡ some (6, 98 ∷ 98 ∷ [])
unfolding namex namex_loop skipelem skip_slashes passed stopped
found = refl

parent_found : namex is_dir dirlookup true 9 slashes ≡ some (5, 98 ∷ 98 ∷ [])
unfolding namex namex_loop skipelem skip_slashes passed stopped
parent_found = refl

namex-walk_example :
    inode (namex is_dir dirlookup false 9 slashes)
    ≡ walk is_dir dirlookup (start_of 9 slashes) (names slashes)
namex-walk_example = namex-walk is_dir dirlookup 9 slashes
