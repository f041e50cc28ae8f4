-- ===== src/Syscall/Tests.antt =====
-- Arguments of a process with 4096 bytes of memory, and the theorems at them.
use ele.Syscall.{User, argptr, argstr, fetchstr, argint, fetchint, find_nul}
use ele.Base.{
  ℕ, ◌+◌, ◌≤◌, ◌<◌, ◌≡◌, refl, ◌≢◌, ◌↔◌, ◌⊎◌, none, some, arith, ◌==◌, if◌then◌else◌, pos, negsuc,
}
use ele.Syscall.Fetch.{argptr_iff, fetchstr-text}

-- The stack pointer is at 4000: the arguments are 300 and 4090, and "hi" is at 300.
abbrev user : User
user = record {
  sz = 4096;
  esp = 4000;
  byte = λ a.
      if a == 4004
      then 44
      else if a == 4005
      then 1
      else if a == 4008
      then 250
      else if a == 4009
      then 15
      else if a == 300
      then 104
      else if a == 301
      then 105
      else 0;
}

-- A pointer six bytes before the end of the memory, for six bytes and for seven.
at_end : (argptr 1 (pos 6) user ≡ some 4090) × (argptr 1 (pos 7) user ≡ none)
unfolding argptr argint fetchint
at_end = (refl, refl)

negative_size : argptr 0 (negsuc 0) user ≡ none
unfolding argptr argint fetchint
negative_size = refl

text_argument : argstr 0 user ≡ some (300, 2)
unfolding argstr argint fetchint fetchstr find_nul
text_argument = refl

argptr_iff_example :
    (argptr 1 (pos 6) user ≡ some 4090)
    ↔ ((argint 1 user ≡ some 4090) × (4090 < user.sz) × (4090 + 6 ≤ user.sz))
argptr_iff_example = argptr_iff 1 6 4090 user (ground arith) (ground arith)

fetchstr-text_example :
    ((fetchstr 300 user ≡ none) × ((i : ℕ) → 300 + i < user.sz → user.byte (300 + i) ≢ 0))
    ⊎ ((n : ℕ) × (fetchstr 300 user ≡ some (300, n))
        × (300 + n < user.sz)
        × (user.byte (300 + n) ≡ 0)
        × ((i : ℕ) → i < n → user.byte (300 + i) ≢ 0))
fetchstr-text_example = fetchstr-text 300 user
