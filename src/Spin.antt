-- ===== src/Spin.antt =====
-- xv6-public/spinlock.c: spin locks of any number of CPUs. A CPU and a lock are their indices. An
-- `acquire` that spins does nothing that others can see; it is the value `none`, and is made again.
-- The call stack and the name of a lock are for debugging, and not modelled.
pub mod Nesting
pub mod Matched
pub mod Exclusion
mod Tests
use ele.Base.{
  ℕ, zero, suc, ◌+◌, ◌-◌, ◌*◌, ◌/◌, ◌%◌, ◌^◌, ◌≤◌, ◌<◌, ◌≡◌, refl, sym, ap, ap₂, ◌∙◌, subst, ◌≢◌,
  ◌↔◌, ◌⊎◌, inl, inr, Bool, true, false, ◌&&◌, ◌||◌, not, Option, none, some, List, [], ◌∷◌, ◌++◌,
  map, arith, dec_lt, ℕ_discrete, ltb, leb, ◌==◌, if◌then◌else◌, Bool-cases, Option-cases, length,
  get_elem?, get_or, replicate, take, drop, Outcome, done, panic, undefined, ◌>>=◌, >>=-eq-done,
  pos, negsuc, ℤ, length-append, store,
}

-- What `struct cpu` has for locks, and the interrupt flag of its processor.
pub record Cpu : Type 0 where
  pub interrupts : Bool
  pub ncli : ℕ
  pub intena : Bool

-- `struct spinlock`; the null pointer is `none`.
pub record Spinlock : Type 0 where
  pub locked : Bool
  pub cpu : Option ℕ

abbrev pub initlock : Spinlock
initlock = record { locked = false; cpu = none }

pub record Machine : Type 0 where
  pub cpus : ℕ → Cpu
  pub lock : ℕ → Spinlock

abbrev pub set_cpu : ℕ → Cpu → Machine → Machine
set_cpu c x s = record s { cpus = store s.cpus c x }

abbrev pub set_lock : ℕ → Spinlock → Machine → Machine
set_lock l x s = record s { lock = store s.lock l x }

unfoldable pub pushcli : (c : ℕ) → Machine → Machine
pushcli c s =
    let x = s.cpus c in
    set_cpu c
      (record {
        interrupts = false;
        ncli = x.ncli + 1;
        intena = if x.ncli == 0 then x.interrupts else x.intena;
      })
      s

unfoldable pub popcli : (c : ℕ) → Machine → Outcome Machine
popcli c s =
    let x = s.cpus c in
    if x.interrupts
    then panic
    else if x.ncli == 0
    then panic
    else done
        (set_cpu c (record x { ncli = x.ncli - 1; interrupts = (x.ncli - 1 == 0) && x.intena }) s)

-- `lock->locked && lock->cpu == mycpu()`
abbrev pub is_held : (c : ℕ) → Spinlock → Bool
is_held c x = x.locked && elim x.cpu [ none ↦ false | some d ↦ d == c ]

unfoldable pub holding : (c l : ℕ) → Machine → Outcome (Bool × Machine)
holding c l s = popcli c (pushcli c s) >>= λ t. done (is_held c (s.lock l), t)

unfoldable pub acquire : (c l : ℕ) → Machine → Outcome (Option Machine)
acquire c l s = holding c l (pushcli c s) >>= λ (r, t).
    if r
    then panic
    else if (t.lock l).locked
    then done none
    else done (some (set_lock l (record { locked = true; cpu = some c }) t))

unfoldable pub release : (c l : ℕ) → Machine → Outcome Machine
release c l s = holding c l s >>= λ (r, t).
    if not r then panic else popcli c (set_lock l (record { locked = false; cpu = none }) t)
