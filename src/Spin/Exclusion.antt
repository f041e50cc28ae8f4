-- ===== src/Spin/Exclusion.antt =====
-- Mutual exclusion of spin locks (spinlock.c), and no interrupt while a lock is held.
use ele.Spin.{Machine, initlock, is_held, acquire, release}
use ele.Base.{ℕ, ◌<◌, ◌≡◌, ap, ◌≢◌, true, false, some, arith, done, total_zero, store_self}
use ele.Spin.Matched.{System, Steps, Matched, owned, held-nested, Steps-Matched}
use ele.Spin.Nesting.{acquire-free, release-held}

-- No lock is held, and nothing is nested.
abbrev pub start : Machine → System
start m = record { machine = m; pushes = λ c. 0 }

start-Matched :
    (nlock : ℕ) (m : Machine)
    → ((l : ℕ) → m.lock l ≡ initlock)
    → ((c : ℕ) → (m.cpus c).ncli ≡ 0)
    → Matched nlock (start m)
start-Matched nlock m free idle = record {
  quiet = λ c n. absurd (omega (arith, idle c, n));
  counts = λ c.
      omega
        (arith, idle c, total_zero nlock (λ l. owned c (m.lock l)) (λ l k. ap (owned c) (free l)));
}

-- Whatever the CPUs do with the locks from a start at which none is held: while a CPU holds a lock,
-- its interrupts are off, no `acquire` of the lock succeeds, and its `release` does not panic and frees
-- the lock.
pub Steps-exclusive :
    (nlock : ℕ) (m : Machine)
    → ((l : ℕ) → m.lock l ≡ initlock)
    → ((c : ℕ) → (m.cpus c).ncli ≡ 0)
    → {s : System} → Steps nlock (start m) s
    → (c l : ℕ) → l < nlock
    → is_held c (s.machine.lock l) ≡ true
    → ((s.machine.cpus c).interrupts ≡ false)
      × ((d : ℕ) (t : Machine) → acquire d l s.machine ≢ done (some t))
      × ((t : Machine) × (release c l s.machine ≡ done t) × (t.lock l ≡ initlock))
Steps-exclusive nlock m free idle {s} r c l k h =
    let a = Steps-Matched nlock r (start-Matched nlock m free idle) in
    let n = held-nested nlock s c l a k h in
    (
      a.quiet c n,
      λ d t e. absurd (ground (arith, (acquire-free d l s.machine t a.quiet e).0, h)),
      (_, release-held c l s.machine a.quiet n h, store_self s.machine.lock l initlock),
    )
