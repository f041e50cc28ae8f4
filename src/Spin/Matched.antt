-- ===== src/Spin/Matched.antt =====
-- The spin locks in use (spinlock.c): what each CPU counts in `ncli`.
use ele.Spin.{Machine, Spinlock, pushcli, acquire, is_held, release, popcli, set_cpu, initlock}
use ele.Base.{
  ℕ, ◌+◌, ◌-◌, ◌<◌, ◌≡◌, refl, sym, ap, ◌∙◌, subst, inl, inr, Bool, true, some, arith, ◌==◌,
  if◌then◌else◌, Option-cases, done, total, store, total-change, store_ne, store_self, total_pos,
}
use ele.Spin.Nesting.{popcli-at, done_same, IsQuiet, pushcli-IsQuiet, acquire-free, release-held}

-- The CPUs, and how often each has called `pushcli` itself without a `popcli` yet.
pub record System : Type 0 where
  pub machine : Machine
  pub pushes : ℕ → ℕ

abbrev pub owned : (c : ℕ) → Spinlock → ℕ
owned c x = if is_held c x then 1 else 0

module _ (nlock : ℕ) where
  -- A CPU releases a lock that it holds, calls `popcli` for its own `pushcli`, and changes its
  -- interrupt flag otherwise only when nothing is nested.
  pub data Step (s : System) : System → Type 0 where
    acquires :
        {m : Machine} (c l : ℕ)
        → l < nlock
        → acquire c l s.machine ≡ done (some m)
        → Step s (record { machine = m; pushes = s.pushes })
    releases :
        {m : Machine} (c l : ℕ)
        → l < nlock
        → is_held c (s.machine.lock l) ≡ true
        → release c l s.machine ≡ done m
        → Step s (record { machine = m; pushes = s.pushes })
    pushes_once :
        (c : ℕ)
        → Step s
            (record { machine = pushcli c s.machine; pushes = store s.pushes c (s.pushes c + 1) })
    pops_once :
        {m : Machine} (c : ℕ)
        → 0 < s.pushes c
        → popcli c s.machine ≡ done m
        → Step s (record { machine = m; pushes = store s.pushes c (s.pushes c - 1) })
    switches :
        (c : ℕ) (b : Bool)
        → (s.machine.cpus c).ncli ≡ 0
        → Step s (record {
          machine = set_cpu c (record (s.machine.cpus c) { interrupts = b }) s.machine;
          pushes = s.pushes;
        })

  pub data Steps (s : System) : System → Type 0 where
    here : Steps s s
    next : {t u : System} → Steps s t → Step t u → Steps s u

  -- What each CPU counts: the locks that it holds and its own `pushcli`s.
  pub record Matched (s : System) : Type 0 where
    pub quiet : IsQuiet s.machine
    pub counts :
        (c : ℕ)
        → (s.machine.cpus c).ncli ≡ total nlock (λ l. owned c (s.machine.lock l)) + s.pushes c

  -- What a change of one lock does to the count.
  owned-set_lock :
      (lock : ℕ → Spinlock) (l : ℕ) (x : Spinlock) (c : ℕ)
      → l < nlock
      → total nlock (λ j. owned c (store lock l x j)) + owned c (lock l)
        ≡ total nlock (λ j. owned c (lock j)) + owned c x
  owned-set_lock lock l x c k =
      let other =
        total-change nlock (λ j. owned c (store lock l x j)) (λ j. owned c (lock j)) l k
          (λ j e. ap (owned c) (store_ne lock l x j e)) in
      let mine = ap (owned c) (store_self lock l x) in omega (arith, other, mine)

  acquire-Matched :
      (s : System) (c l : ℕ) {m : Machine}
      → Matched s
      → l < nlock
      → acquire c l s.machine ≡ done (some m)
      → Matched (record { machine = m; pushes = s.pushes })
  unfolding pushcli store
  acquire-Matched s c l {m} a k e =
      let (free, q) = acquire-free c l s.machine m a.quiet e in
      subst (λ x. Matched (record { machine = x; pushes = s.pushes })) (sym q)
        (record {
          quiet = pushcli-IsQuiet c s.machine a.quiet;
          counts = λ d.
              let none_before : owned d (s.machine.lock l) ≡ 0 = rw free refl in
              let change =
                owned-set_lock s.machine.lock l (record { locked = true; cpu = some c }) d k in
              ground (arith, change, a.counts d, none_before);
        })

  is_held_same : (c d : ℕ) (x : Spinlock) → is_held c x ≡ true → is_held d x ≡ (c == d)
  is_held_same c d x h = elim (Option-cases x.cpu) [
    | inl e ↦ absurd (ground (arith, rw e at h))
    | inr (o, e) ↦
        let same : o ≡ c = ground (arith, rw e at h) in rw e (ground (arith, rw e at h, same))
  ]

  -- The CPU that holds a lock is nested.
  pub held-nested :
      (s : System) (c l : ℕ)
      → Matched s
      → l < nlock
      → is_held c (s.machine.lock l) ≡ true
      → 0 < (s.machine.cpus c).ncli
  held-nested s c l a k h =
      let one : owned c (s.machine.lock l) ≡ 1 = rw h refl in
      omega (arith, a.counts c, one, total_pos nlock (λ j. owned c (s.machine.lock j)) l k)

  release-Matched :
      (s : System) (c l : ℕ) {m : Machine}
      → Matched s
      → l < nlock
      → is_held c (s.machine.lock l) ≡ true
      → release c l s.machine ≡ done m
      → Matched (record { machine = m; pushes = s.pushes })
  unfolding store
  release-Matched s c l {m} a k h e =
      let n = held-nested s c l a k h in
      let q = sym (release-held c l s.machine a.quiet n h) ∙ e in
      subst (λ x. Matched (record { machine = x; pushes = s.pushes })) (done_same q)
        (record {
          quiet = λ d p. ground (arith, p, a.quiet d, a.quiet c, n);
          counts = λ d.
              let before : owned d (s.machine.lock l) ≡ (if c == d then 1 else 0) =
                rw (is_held_same c d (s.machine.lock l) h) refl in
              let change = owned-set_lock s.machine.lock l initlock d k in
              ground (arith, change, a.counts d, before, n);
        })

  push-Matched :
      (s : System) (c : ℕ)
      → Matched s
      → Matched
          (record { machine = pushcli c s.machine; pushes = store s.pushes c (s.pushes c + 1) })
  unfolding pushcli store
  push-Matched s c a = record {
    quiet = λ d n. ground (arith, a.quiet d, n);
    counts = λ d. ground (arith, a.counts d);
  }

  pop-Matched :
      (s : System) (c : ℕ) {m : Machine}
      → Matched s
      → 0 < s.pushes c
      → popcli c s.machine ≡ done m
      → Matched (record { machine = m; pushes = store s.pushes c (s.pushes c - 1) })
  unfolding store
  pop-Matched s c {m} a p e =
      let n : 0 < (s.machine.cpus c).ncli = omega (arith, a.counts c, p) in
      let q =
        sym (popcli-at c s.machine (s.machine.cpus c) refl (a.quiet c n) (ground (arith, n))) ∙ e in
      subst (λ x. Matched (record { machine = x; pushes = store s.pushes c (s.pushes c - 1) }))
        (done_same q)
        (record {
          quiet = λ d k. ground (arith, a.quiet d, a.quiet c, k, n);
          counts = λ d. ground (arith, a.counts d, n, p);
        })

  switch-Matched :
      (s : System) (c : ℕ) (b : Bool)
      → Matched s
      → (s.machine.cpus c).ncli ≡ 0
      → Matched (record {
        machine = set_cpu c (record (s.machine.cpus c) { interrupts = b }) s.machine;
        pushes = s.pushes;
      })
  unfolding store
  switch-Matched s c b a z = record {
    quiet = λ d k. ground (arith, a.quiet d, k, z);
    counts = λ d. ground (arith, a.counts d);
  }

  Step-Matched : {s t : System} → Step s t → Matched s → Matched t
  Step-Matched {s} (acquires c l k e) a = acquire-Matched s c l a k e
  Step-Matched {s} (releases c l k h e) a = release-Matched s c l a k h e
  Step-Matched {s} (pushes_once c) a = push-Matched s c a
  Step-Matched {s} (pops_once c p e) a = pop-Matched s c a p e
  Step-Matched {s} (switches c b z) a = switch-Matched s c b a z

  pub Steps-Matched : {s t : System} → Steps s t → Matched s → Matched t
  Steps-Matched here a = a
  Steps-Matched (next r x) a = Step-Matched x (Steps-Matched r a)
