-- ===== src/Strings.antt =====
-- xv6-public/string.c: the kernel's routines on memory and strings. Memory gives each address its
-- byte; an area does not run past the end of the address space. A count that is not positive is 0:
-- the loops `while(n-- > 0)` treat them alike. Of a routine that returns its own argument, the
-- result is the memory.
pub mod Move
pub mod Fill
pub mod Text
mod Tests
use ele.Base.{
  ℕ, zero, suc, ◌+◌, ◌-◌, ◌*◌, ◌/◌, ◌%◌, ◌^◌, ◌≤◌, ◌<◌, ◌≡◌, refl, sym, ap, ap₂, ◌∙◌, subst, ◌≢◌,
  ◌↔◌, ◌⊎◌, inl, inr, Bool, true, false, ◌&&◌, ◌||◌, not, Option, none, some, List, [], ◌∷◌, ◌++◌,
  map, arith, dec_lt, ℕ_discrete, ltb, leb, ◌==◌, if◌then◌else◌, Bool-cases, Option-cases, length,
  get_elem?, get_or, replicate, take, drop, Outcome, done, panic, undefined, ◌>>=◌, >>=-eq-done,
  pos, negsuc, ℤ, length-append, store,
}

abbrev pub Bytes : Type 0
Bytes = ℕ → ℕ

-- The loops of `memmove`: `*d++ = *s++`, and `*--d = *--s` from the ends of the areas.
unfoldable pub copy_up : (n d s : ℕ) → Bytes → Bytes
copy_up zero d s m = m
copy_up (suc n) d s m = copy_up n (d + 1) (s + 1) (store m d (m s))

unfoldable pub copy_down : (n d s : ℕ) → Bytes → Bytes
copy_down zero d s m = m
copy_down (suc n) d s m = copy_down n d s (store m (d + n) (m (s + n)))

unfoldable pub memmove : (d s n : ℕ) → Bytes → Bytes
memmove d s n m = if ltb s d && ltb d (s + n) then copy_down n d s m else copy_up n d s m

-- `stosb` and `stosl` of x86.h: a byte, and a word with its low byte first.
unfoldable pub stosb : (d byte n : ℕ) → Bytes → Bytes
stosb d byte zero m = m
stosb d byte (suc n) m = stosb (d + 1) byte n (store m d (byte % 256))

unfoldable pub stosl : (d word n : ℕ) → Bytes → Bytes
stosl d word zero m = m
stosl d word (suc n) m = stosl (d + 4) word n (
    store
      (store (store (store m d (word % 256)) (d + 1) (word / 256 % 256)) (d + 2)
        (word / 65536 % 256))
      (d + 3) (word / 16777216 % 256))

-- `memset`, where `c` is the bit pattern of the `int`; the four terms joined by `|` share no bit.
unfoldable pub memset : (d c n : ℕ) → Bytes → Bytes
memset d c n m =
    let low = c % 256 in
    if d % 4 == 0 && n % 4 == 0
    then stosl d (low * 16777216 + low * 65536 + low * 256 + low) (n / 4) m
    else stosb d c n m

-- `*s1 - *s2`
abbrev pub difference : ℕ → ℕ → ℤ
difference a b = if leb b a then pos (a - b) else negsuc (b - a - 1)

unfoldable pub memcmp : (p q n : ℕ) → Bytes → ℤ
memcmp p q zero m = pos 0
memcmp p q (suc n) m = if m p == m q then memcmp (p + 1) (q + 1) n m else difference (m p) (m q)

unfoldable pub strncmp : (p q n : ℕ) → Bytes → ℤ
strncmp p q zero m = pos 0
strncmp p q (suc n) m =
    if not (m p == 0) && m p == m q then strncmp (p + 1) (q + 1) n m else difference (m p) (m q)

-- The second loop of `strncpy`.
unfoldable pub pad : (s n : ℕ) → Bytes → Bytes
pad s zero m = m
pad s (suc n) m = pad (s + 1) n (store m s 0)

unfoldable pub strncpy : (s t n : ℕ) → Bytes → Bytes
strncpy s t zero m = m
strncpy s t (suc n) m =
    let m' = store m s (m t) in
    let rest = strncpy (s + 1) (t + 1) n m' in if m t == 0 then pad (s + 1) n m' else rest

-- The loop of `safestrcpy` and the NUL after it; `n` is one less than the size.
unfoldable pub copy_text : (s t n : ℕ) → Bytes → Bytes
copy_text s t zero m = store m s 0
copy_text s t (suc n) m =
    let m' = store m s (m t) in
    let rest = copy_text (s + 1) (t + 1) n m' in if m t == 0 then store m' (s + 1) 0 else rest

unfoldable pub safestrcpy : (s t n : ℕ) → Bytes → Bytes
safestrcpy s t zero m = m
safestrcpy s t (suc n) m = copy_text s t n m

-- The loop of `strlen` from `n` on; it runs out of fuel where no NUL comes.
unfoldable pub length_from : (fuel s n : ℕ) → Bytes → Option ℕ
length_from zero s n m = none
length_from (suc fuel) s n m = if m (s + n) == 0 then some n else length_from fuel s (n + 1) m

unfoldable pub strlen : (fuel s : ℕ) → Bytes → Option ℕ
strlen fuel s m = length_from fuel s 0 m
