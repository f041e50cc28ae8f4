-- ===== src/Spin/Nesting.antt =====
-- The interrupt flag of a CPU through `pushcli` and `popcli` (spinlock.c).
use mathlib.Core.Path.{fun_ext}
use ele.Spin.{
  Machine, holding, pushcli, popcli, is_held, Cpu, set_cpu, acquire, release, set_lock, initlock,
}
use ele.Base.{
  ℕ, ◌+◌, ◌-◌, ◌<◌, ◌≡◌, refl, sym, ap, ◌∙◌, inl, inr, true, false, ◌&&◌, Option, some, arith, ◌==◌,
  if◌then◌else◌, Bool-cases, Outcome, done, panic, store, store_self, ==_iff,
}

-- A CPU that has interrupts on has none disabled, and `pushcli` and `popcli` of it are matched.
abbrev pub IsQuiet : Machine → Type 0
IsQuiet s = (c : ℕ) → 0 < (s.cpus c).ncli → (s.cpus c).interrupts ≡ false

-- `popcli` on the CPU as it is.
pub popcli-at :
    (c : ℕ) (s : Machine) (x : Cpu)
    → s.cpus c ≡ x
    → x.interrupts ≡ false
    → (x.ncli == 0) ≡ false
    → popcli c s
      ≡ done
          (set_cpu c (record x { ncli = x.ncli - 1; interrupts = (x.ncli - 1 == 0) && x.intena }) s)
unfolding popcli
popcli-at c s x e i n =
    ap
      (λ y.
        if y.interrupts
        then panic
        else if y.ncli == 0
        then panic
        else done (
            set_cpu c (record y { ncli = y.ncli - 1; interrupts = (y.ncli - 1 == 0) && y.intena })
              s))
      e
    ∙ rw (i, n) refl

abbrev pub pushed : Cpu → Cpu
pushed x = record {
  interrupts = false;
  ncli = x.ncli + 1;
  intena = if x.ncli == 0 then x.interrupts else x.intena;
}

pub pushcli-at : (c : ℕ) (s : Machine) → (pushcli c s).cpus c ≡ pushed (s.cpus c)
unfolding pushcli
pushcli-at c s = store_self s.cpus c (pushed (s.cpus c))

store_back : (f : ℕ → Cpu) (c : ℕ) (x : Cpu) → store (store f c x) c (f c) ≡ f
unfolding store
store_back f c x =
    fun_ext
      λ a. elim (Bool-cases (c == a)) [ inl e ↦ rw e (ap f ((==_iff c a).0 e)) | inr e ↦ rw e refl ]

same_cpu :
    (x : Cpu)
    → x.interrupts ≡ false
    → 0 < x.ncli
    → ◌≡◌ {A = Cpu}
        (record (pushed x) {
          ncli = x.ncli + 1 - 1;
          interrupts = (x.ncli + 1 - 1 == 0) && (pushed x).intena;
        })
        x
same_cpu x i n = ground (arith, i, n)

-- With interrupts off, `holding` only tests, and `pushcli` and `popcli` leave all as it was.
pub holding-nested :
    (c l : ℕ) (s : Machine)
    → IsQuiet s
    → 0 < (s.cpus c).ncli
    → holding c l s ≡ done (is_held c (s.lock l), s)
unfolding holding pushcli
holding-nested c l s q n =
    let back : popcli c (pushcli c s) ≡ done s =
      popcli-at c (pushcli c s) (pushed (s.cpus c)) (pushcli-at c s) refl (ground arith)
      ∙ ap (λ x. done (set_cpu c x (pushcli c s))) (same_cpu (s.cpus c) (q c n) n)
      ∙ ap (λ f. done (record s { cpus = f })) (store_back s.cpus c (pushed (s.cpus c))) in
    rw back refl

pub pushcli-IsQuiet : (c : ℕ) (s : Machine) → IsQuiet s → IsQuiet (pushcli c s)
unfolding pushcli store
pushcli-IsQuiet c s q d n = ground (arith, q d, n)

pub pushcli-lock : (c : ℕ) (s : Machine) → (pushcli c s).lock ≡ s.lock
unfolding pushcli
pushcli-lock c s = refl

done_some :
    {a b : Machine} → ◌≡◌ {A = Outcome (Option Machine)} (done (some a)) (done (some b)) → a ≡ b
done_some e = ground arith

-- `acquire` takes a free lock, and only that.
pub acquire-free :
    (c l : ℕ) (s m : Machine)
    → IsQuiet s
    → acquire c l s ≡ done (some m)
    → ((s.lock l).locked ≡ false)
      × (m ≡ set_lock l (record { locked = true; cpu = some c }) (pushcli c s))
unfolding acquire
acquire-free c l s m q e =
    let t = pushcli c s in
    let some_nested : 0 < (t.cpus c).ncli = omega (arith, ap (λ x. x.ncli) (pushcli-at c s)) in
    let test = holding-nested c l t (pushcli-IsQuiet c s q) some_nested in
    elim (Bool-cases (is_held c (t.lock l))) [
      | inl h ↦ absurd (cc (rw (acquire, test, h) at e))
      | inr h ↦ elim (Bool-cases (t.lock l).locked) [
        | inl k ↦ absurd (cc (rw (acquire, test, h, k) at e))
        | inr k ↦ (
          ap (λ f. (f l).locked) (sym (pushcli-lock c s)) ∙ k,
          sym (done_some (rw (acquire, test, h, k) at e)),
        )
      ]
    ]

pub release-held :
    (c l : ℕ) (s : Machine)
    → IsQuiet s
    → 0 < (s.cpus c).ncli
    → is_held c (s.lock l) ≡ true
    → release c l s
      ≡ done (
          set_cpu c
            (record (s.cpus c) {
              ncli = (s.cpus c).ncli - 1;
              interrupts = ((s.cpus c).ncli - 1 == 0) && (s.cpus c).intena;
            })
            (set_lock l initlock s))
unfolding release
release-held c l s q n h =
    rw (release, holding-nested c l s q n, h)
      (popcli-at c (set_lock l initlock s) (s.cpus c) refl (q c n) (ground (arith, n)))

pub done_same : {a b : Machine} → ◌≡◌ {A = Outcome Machine} (done a) (done b) → a ≡ b
done_same e = ground arith
