-- ===== src/Syscall.antt =====
-- xv6-public/syscall.c: the arguments of a system call, fetched from the memory of the process. An
-- `int` is its bit pattern, a number below 2 ^ 32; -1 as the result is `none`.
pub mod Fetch
mod Tests
use ele.Base.{
  ℕ, zero, suc, ◌+◌, ◌-◌, ◌*◌, ◌/◌, ◌%◌, ◌^◌, ◌≤◌, ◌<◌, ◌≡◌, refl, sym, ap, ap₂, ◌∙◌, subst, ◌≢◌,
  ◌↔◌, ◌⊎◌, inl, inr, Bool, true, false, ◌&&◌, ◌||◌, not, Option, none, some, List, [], ◌∷◌, ◌++◌,
  map, arith, dec_lt, ℕ_discrete, ltb, leb, ◌==◌, if◌then◌else◌, Bool-cases, Option-cases, length,
  get_elem?, get_or, replicate, take, drop, Outcome, done, panic, undefined, ◌>>=◌, >>=-eq-done,
  pos, negsuc, ℤ, length-append,
}
use ele.Kalloc.{kern_base}

-- What the routines read of `myproc()`: `sz`, `tf->esp`, and the bytes of its memory.
pub record User : Type 0 where
  pub sz : ℕ
  pub esp : ℕ
  pub byte : ℕ → ℕ

-- `uint` arithmetic.
abbrev pub wrap : ℕ → ℕ
wrap n = n % 4294967296

-- `*(int*)addr`, the low byte first.
abbrev pub load : (ℕ → ℕ) → ℕ → ℕ
load byte a = byte a + 256 * byte (a + 1) + 65536 * byte (a + 2) + 16777216 * byte (a + 3)

unfoldable pub fetchint : (addr : ℕ) → User → Option ℕ
fetchint addr u =
    if leb u.sz addr || ltb u.sz (wrap (addr + 4)) then none else some (load u.byte addr)

-- The loop of `fetchstr` at `s`, over the `n` bytes up to `ep`; `len` bytes have been passed.
unfoldable pub find_nul : (n s len : ℕ) → (ℕ → ℕ) → Option ℕ
find_nul zero s len byte = none
find_nul (suc n) s len byte = if byte s == 0 then some len else find_nul n (s + 1) (len + 1) byte

-- The pointer and the length of the string.
unfoldable pub fetchstr : (addr : ℕ) → User → Option (ℕ × ℕ)
fetchstr addr u =
    if leb u.sz addr
    then none
    else elim (find_nul (u.sz - addr) addr 0 u.byte) [ none ↦ none | some n ↦ some (addr, n) ]

unfoldable pub argint : (n : ℕ) → User → Option ℕ
argint n u = fetchint (wrap (u.esp + 4 + 4 * n)) u

unfoldable pub argptr : (n : ℕ) → (size : ℤ) → User → Option ℕ
argptr n (negsuc size) u = elim (argint n u) [ none ↦ none | some i ↦ none ]
argptr n (pos size) u = elim (argint n u) [
  | none ↦ none
  | some i ↦ if leb u.sz i || ltb u.sz (wrap (i + size)) then none else some i
]

unfoldable pub argstr : (n : ℕ) → User → Option (ℕ × ℕ)
argstr n u = elim (argint n u) [ none ↦ none | some addr ↦ fetchstr addr u ]
