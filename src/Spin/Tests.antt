-- ===== src/Spin/Tests.antt =====
-- Two CPUs and a lock, and the theorem at that run.
use ele.Spin.{Machine, acquire, pushcli, release, set_lock, holding, initlock, popcli, is_held}
use ele.Base.{ℕ, ◌≡◌, refl, ◌≢◌, true, false, none, some, arith, done, panic, store}
use ele.Spin.Matched.{Steps, here, next, acquires}
use ele.Spin.Exclusion.{start, Steps-exclusive}

-- All interrupts are on.
abbrev idle : Machine
idle = record {
  cpus = λ c. record { interrupts = true; ncli = 0; intena = false };
  lock = λ l. initlock;
}

abbrev taken : Machine
taken = set_lock 2 (record { locked = true; cpu = some 0 }) (pushcli 0 idle)

-- The middle `holding` writes the state of the CPU back as it was.
taken_same :
    acquire 0 2 idle
    ≡ done (
        some (record taken {
          cpus =
              store
                (store
                  (store idle.cpus 0 ((pushcli 0 idle).cpus 0))
                  0
                  ((pushcli 0 (pushcli 0 idle)).cpus 0))
                0
                ((pushcli 0 idle).cpus 0);
        }))
unfolding acquire holding pushcli popcli store
taken_same = refl

abbrev held_two : Machine
held_two = record taken {
  cpus =
      store
        (store (store idle.cpus 0 ((pushcli 0 idle).cpus 0)) 0
          ((pushcli 0 (pushcli 0 idle)).cpus 0))
        0 ((pushcli 0 idle).cpus 0);
}

to_held : Steps 3 (start idle) (record { machine = held_two; pushes = λ c. 0 })
to_held = next here (acquires 0 2 (ground arith) taken_same)

is_two : is_held 0 (held_two.lock 2) ≡ true
unfolding pushcli store
is_two = refl

-- The other CPU spins, and the interrupts come back after the release.
others_wait :
    (acquire 1 2 held_two ≡ done none)
    × (acquire 0 2 held_two ≡ panic)
    × ((held_two.cpus 0).interrupts ≡ false)
unfolding acquire holding pushcli popcli store
others_wait = (refl, refl, refl)

Steps-exclusive_example :
    ((held_two.cpus 0).interrupts ≡ false)
    × ((d : ℕ) (t : Machine) → acquire d 2 held_two ≢ done (some t))
    × ((t : Machine) × (release 0 2 held_two ≡ done t) × (t.lock 2 ≡ initlock))
Steps-exclusive_example =
    Steps-exclusive 3 idle (λ l. refl) (λ c. refl) to_held 0 2 (ground arith) is_two
