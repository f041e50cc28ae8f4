-- ===== src/Strings/Tests.antt =====
-- Runs of the routines on concrete memory, and the theorems at them.
use ele.Strings.Move.{copied, memmove-copied}
use ele.Strings.Text.{text}
use ele.Strings.{
  Bytes, memcmp, memmove, memset, safestrcpy, stosl, copy_text, strncmp, copy_up, stosb, copy_down,
}
use ele.Base.{◌-◌, ◌≡◌, refl, ◌&&◌, [], ◌∷◌, map, ltb, leb, if◌then◌else◌, pos, negsuc, store}

-- The bytes "abcde" at 100, and zeros elsewhere.
abbrev letters : Bytes
letters a = if leb 100 a && ltb a 105 then a - 3 else 0

-- Two places on, over itself: the source is read before it is overwritten.
overlap :
    map (memmove 102 100 5 letters) (102 ∷ 103 ∷ 104 ∷ 105 ∷ 106 ∷ [])
    ≡ 97 ∷ 98 ∷ 99 ∷ 100 ∷ 101 ∷ []
unfolding memmove copy_up copy_down store
overlap = refl

-- The words of the aligned case, and the bytes of the other.
aligned : map (memset 200 513 8 letters) (199 ∷ 200 ∷ 207 ∷ 208 ∷ []) ≡ 0 ∷ 1 ∷ 1 ∷ 0 ∷ []
unfolding memset stosl stosb store
aligned = refl

unaligned_fill :
    map (memset 201 255 3 letters) (200 ∷ 201 ∷ 203 ∷ 204 ∷ []) ≡ 0 ∷ 255 ∷ 255 ∷ 0 ∷ []
unfolding memset stosl stosb store
unaligned_fill = refl

cut_text : text 9 300 (safestrcpy 300 100 4 letters) ≡ 97 ∷ 98 ∷ 99 ∷ []
unfolding safestrcpy copy_text store
cut_text = refl

compared : (memcmp 100 101 3 letters ≡ negsuc 0) × (strncmp 104 100 3 letters ≡ pos 4)
unfolding memcmp strncmp
compared = (refl, refl)

memmove-copied_example : memmove 102 100 5 letters ≡ copied 102 100 5 letters
memmove-copied_example = memmove-copied 102 100 5 letters
