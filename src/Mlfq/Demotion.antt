-- ===== src/Mlfq/Demotion.antt =====
-- What a clock tick does to the running process when its quantum is used up (trap.c).
use ele.Proc.Sleep.{yield, wakeup, wakeup1, wake}
use ele.Mlfq.Trap.{
  demote, running_proc, timer_tick, charge, trap_tail, yields, must_exit, expired, ticks_channel,
  leaves_l0, from_l0, leaves_l12, from_l12, renews_l3, from_l3, timer_trap,
}
use ele.Proc.Table.{Kernel, Proc, running, assign, runnable, Channel, proc_at, get_or_of_get_elem?}
use ele.Base.{
  ℕ, zero, suc, ◌+◌, ◌%◌, ◌^◌, ◌≤◌, ◌≡◌, refl, ap, ◌∙◌, ◌⊎◌, inl, inr, Bool, true, false, Option,
  none, some, arith, ◌==◌, if◌then◌else◌, Bool-cases, get_elem?, pos, negsuc, ℤ, decrement,
  get_elem?-update_self, leb_ℤ, get_elem?-map, update, decrement_parts, ltb_ℤ,
}

-- Where the rules of the queues put a process of the levels 0 to 3.
abbrev pub Replaced : Proc → Proc → Type 0
Replaced p q =
    ((p.level ≡ 0)
      × (p.pid % 2 ≡ 0)
      × (q.level ≡ 2)
      × (q.quantum ≡ pos 6)
      × (q.priority ≡ p.priority))
    ⊎ ((p.level ≡ 0)
        × (p.pid % 2 ≡ 1)
        × (q.level ≡ 1)
        × (q.quantum ≡ pos 4)
        × (q.priority ≡ p.priority))
    ⊎ ((1 ≤ p.level)
        × (p.level ≤ 2)
        × (q.level ≡ 3)
        × (q.quantum ≡ pos 8)
        × (q.priority ≡ p.priority))
    ⊎ ((p.level ≡ 3)
        × (q.level ≡ 3)
        × (q.quantum ≡ pos 8)
        × (q.priority ≡ (if leb_ℤ p.priority (pos 0) then pos 0 else decrement p.priority)))

-- The CPU runs the process at index `cur`, which is `p`.
pub record Runs (k : Kernel) (cur : ℕ) (p : Proc) : Type 0 where
  pub on_cpu : k.current ≡ some cur
  pub at : get_elem? k.table cur ≡ some p
  pub running_now : p.state ≡ running

proc_at-Runs : (k : Kernel) (cur : ℕ) (p : Proc) → Runs k cur p → proc_at k cur ≡ p
proc_at-Runs k cur p r = get_or_of_get_elem? k.table cur r.at

running_proc-Runs : (k : Kernel) (cur : ℕ) (p : Proc) → Runs k cur p → running_proc k ≡ some cur
unfolding running_proc
running_proc-Runs k cur p r =
    rw (running_proc, r.on_cpu, proc_at-Runs k cur p r, r.running_now) refl

wake_running : (chan : Option Channel) (q : Proc) → q.state ≡ running → wake chan q ≡ q
wake_running chan q e = rw e refl

timer_tick-Runs :
    (k : Kernel) (cur : ℕ) (p : Proc)
    → Runs k cur p
    → Runs (timer_tick k) cur (record p { quantum = decrement p.quantum })
unfolding timer_tick charge wakeup wakeup1 assign
timer_tick-Runs k cur p r =
    let counted = record k { ticks = (k.ticks + 1) % 2 ^ 32 } in
    let now : Runs counted cur p = record {
      on_cpu = r.on_cpu;
      at = r.at;
      running_now = r.running_now;
    } in
    let less : Proc → Proc = λ q. record q { quantum = decrement q.quantum } in
    rw (timer_tick, running_proc-Runs counted cur p now)
      (record {
        on_cpu = r.on_cpu;
        at =
            get_elem?-map (update k.table cur less) cur (wake (some ticks_channel))
              (get_elem?-update_self k.table cur less r.at)
            ∙ ap some (wake_running (some ticks_channel) (less p) r.running_now);
        running_now = r.running_now;
      })

-- A test of the quantum that succeeds, and one that fails.
demote-taken :
    (test : Proc → Bool) (change : Proc → Proc) (k : Kernel) (cur : ℕ) (p : Proc)
    → Runs k cur p
    → test p ≡ true
    → (k' : Kernel) × (demote test change k ≡ some k')
      × (get_elem? k'.table cur ≡ some (record (change p) { state = runnable }))
unfolding demote yield assign
demote-taken test change k cur p r e = (
  yield (assign k cur change) cur,
  rw (demote, running_proc-Runs k cur p r, proc_at-Runs k cur p r, e) refl,
  get_elem?-update_self (update k.table cur change) cur _
      (get_elem?-update_self k.table cur change r.at),
)

demote-passed :
    (test : Proc → Bool) (change : Proc → Proc) (k : Kernel) (cur : ℕ) (p : Proc)
    → Runs k cur p
    → test p ≡ false
    → demote test change k ≡ none
unfolding demote
demote-passed test change k cur p r e =
    rw (demote, running_proc-Runs k cur p r, proc_at-Runs k cur p r, e) refl

from_l0-Replaced : (p : Proc) → leaves_l0 p ≡ true → Replaced p (from_l0 p)
from_l0-Replaced p a = elim (Bool-cases (p.pid % 2 == 0)) [
  | inl e ↦ inl (ground arith, ground arith, rw e refl, rw e refl, rw e refl)
  | inr e ↦ inr (inl (ground arith, ground arith, rw e refl, rw e refl, rw e refl))
]

from_l12-Replaced : (p : Proc) → leaves_l12 p ≡ true → Replaced p (from_l12 p)
from_l12-Replaced p a = inr (inr (inl (ground arith, ground arith, refl, refl, refl)))

-- `priority--`, and the assignment of 0 to a negative one.
lowered :
    (a : ℤ)
    → (if ltb_ℤ (decrement a) (pos 0) then pos 0 else decrement a)
      ≡ (if leb_ℤ a (pos 0) then pos 0 else decrement a)
unfolding decrement
lowered (pos zero) = refl
lowered (pos (suc n)) = ground arith
lowered (negsuc n) = ground arith

from_l3-Replaced : (p : Proc) → p.level ≡ 3 → Replaced p (from_l3 p)
from_l3-Replaced p e = inr (inr (inr (e, e, refl, lowered p.priority)))

-- A process whose quantum is used up gives up the CPU.
GivesUp : Kernel → (cur : ℕ) → Proc → Bool → Type 0
GivesUp k cur p user_mode =
    (resume : ℕ) × (k' : Kernel) × (q : Proc) × (trap_tail 0 k user_mode ≡ yields resume k')
    × (get_elem? k'.table cur ≡ some (record q { state = runnable }))
    × Replaced p q

expired-GivesUp :
    (k : Kernel) (cur : ℕ) (p : Proc) (user_mode : Bool)
    → Runs k cur p
    → must_exit k user_mode ≡ false
    → p.level ≤ 3
    → expired p ≡ true
    → GivesUp k cur p user_mode
unfolding trap_tail GivesUp
expired-GivesUp k cur p user_mode r m l x = elim (Bool-cases (leaves_l0 p)) [
  | inl a ↦
      let (k', e, t) = demote-taken leaves_l0 from_l0 k cur p r a in
      (2, k', from_l0 p, rw (trap_tail, m, e) refl, t, from_l0-Replaced p a)
  | inr a ↦ elim (Bool-cases (leaves_l12 p)) [
    | inl b ↦
        let (k', e, t) = demote-taken leaves_l12 from_l12 k cur p r b in
        (
          3,
          k',
          from_l12 p,
          rw (trap_tail, m, demote-passed leaves_l0 from_l0 k cur p r a, e) refl,
          t,
          from_l12-Replaced p b,
        )
    | inr b ↦
        let three : p.level ≡ 3 = ground (arith, a, b, x) in
        let (k', e, t) = demote-taken renews_l3 from_l3 k cur p r (ground (arith, three, x)) in
        (
          4,
          k',
          from_l3 p,
          rw
              (
                trap_tail,
                m,
                demote-passed leaves_l0 from_l0 k cur p r a,
                demote-passed leaves_l12 from_l12 k cur p r b,
                e,
              )
              refl,
          t,
          from_l3-Replaced p three,
        )
  ]
]

decrement-expired : (a : ℤ) → leb_ℤ a (pos 1) ≡ true → leb_ℤ (decrement a) (pos 0) ≡ true
decrement-expired a h = ground (arith, decrement_parts a)

must_exit-Runs :
    (k : Kernel) (cur : ℕ) (p : Proc) (user_mode : Bool)
    → Runs k cur p
    → p.killed ≡ 0
    → must_exit k user_mode ≡ false
unfolding must_exit
must_exit-Runs k cur p user_mode r e = rw (must_exit, r.on_cpu, proc_at-Runs k cur p r, e) refl

-- A clock tick on the last unit of the quantum of a running process at a level from 0 to 3 that has
-- not been killed makes it give up the CPU and wait: from level 0 at level 2 for 6 ticks when its pid
-- is even and at level 1 for 4 when it is odd, from levels 1 and 2 at level 3 for 8, and from level 3
-- there again for 8, with a priority lower by one, but not below 0.
pub timer_trap-Replaced :
    (k : Kernel) (cur : ℕ) (p : Proc) (user_mode : Bool)
    → Runs k cur p
    → p.killed ≡ 0
    → p.level ≤ 3
    → leb_ℤ p.quantum (pos 1) ≡ true
    → (resume : ℕ) × (k' : Kernel) × (q : Proc) × (timer_trap k user_mode ≡ yields resume k')
      × (get_elem? k'.table cur ≡ some (record q { state = runnable }))
      × Replaced p q
unfolding timer_trap GivesUp
timer_trap-Replaced k cur p user_mode r e l x =
    let now = timer_tick-Runs k cur p r in
    expired-GivesUp (timer_tick k) cur (record p { quantum = decrement p.quantum }) user_mode now
      (must_exit-Runs (timer_tick k) cur _ user_mode now e) l (decrement-expired p.quantum x)
