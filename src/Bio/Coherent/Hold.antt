-- ===== src/Bio/Coherent/Hold.antt =====
-- Taking the lock of a buffer, marking it dirty, and `brelse` (bio.c) keep the cache coherent.
use ele.Bio.Ring.{without, to_front-IsRing}
use ele.Locks.{acquiresleep, releasesleep, holdingsleep}
use ele.Bio.{
  nbuf, brelse, Buf, change, lock_buf, count_down, acquiresleep, releasesleep, Bcache, holdingsleep,
  push_front, unlink,
}
use ele.Bio.Coherent.{System, Coherent, nbuf, quiet-Coherent}
use ele.Base.{
  ℕ, ◌-◌, ◌<◌, ◌≡◌, refl, sym, subst, ◌⊎◌, inl, inr, true, false, Option, some, ◌∷◌, arith, ◌==◌,
  Bool-cases, Outcome, done, store, store_self, store_ne,
}

some_eq : {c d : Bcache} → ◌≡◌ {A = Option Bcache} (some c) (some d) → c ≡ d
some_eq e = ground arith

pub done_eq : {c d : Bcache} → ◌≡◌ {A = Outcome Bcache} (done c) (done d) → c ≡ d
done_eq e = ground arith

relink-Coherent :
    (s : System) (b : ℕ)
    → b < nbuf
    → Coherent s
    → Coherent (record s { cache = push_front b (unlink b s.cache) })
unfolding push_front unlink
relink-Coherent s b l a = record {
  ring = (b ∷ without b a.ring.0, to_front-IsRing s.cache b a.ring.0 l a.ring.1);
  sound = a.sound;
  unique = a.unique;
  home = a.home;
}

module _ (s : System) (a : Coherent s) (b : ℕ) (within : b < nbuf) where
  pub lock-Coherent :
      {c : Bcache} (me : ℕ)
      → 0 < s.refs b
      → lock_buf me b s.cache ≡ some c
      → Coherent (record s { cache = c; refs = store s.refs b (s.refs b - 1) })
  unfolding lock_buf acquiresleep
  lock-Coherent {c} me free e = elim (Bool-cases (s.cache.buf b).lock.locked) [
    | inl l ↦ absurd (cc (rw (l, lock_buf) at e))
    | inr l ↦
        let v = a.sound b within in
        let out : change b (λ x. record x { lock = record { locked = true; pid = me } }) s.cache
            ≡ c =
          some_eq (rw (l, lock_buf) at e) in
        subst (λ d. Coherent (record s { cache = d; refs = store s.refs b (s.refs b - 1) })) out
          (quiet-Coherent s b _ (store s.refs b (s.refs b - 1)) s.touched a (refl, refl, refl)
            (rw (store_self s.refs b (s.refs b - 1)) (record {
              loaded = v.loaded;
              marked = v.marked;
              cached = v.cached;
              stored = v.stored;
              kept = λ h. refl;
              counted = ground (arith, v.counted, l, free);
            }))
            (λ i e. store_ne s.refs b (s.refs b - 1) i e) (λ i e. refl))
  ]

  pub log-Coherent :
      (s.cache.buf b).valid ≡ true
      → Coherent (record s {
        cache = change b (λ x. record x { dirty = true }) s.cache;
        touched = store s.touched b false;
      })
  log-Coherent valid =
      let v = a.sound b within in
      quiet-Coherent s b (λ x. record x { dirty = true }) s.refs (store s.touched b false) a
        (refl, refl, refl)
        (rw (store_self s.touched b false) (record {
          loaded = v.loaded;
          marked = λ h. valid;
          cached = v.cached;
          stored = λ h k. cc;
          kept = λ h. cc;
          counted = v.counted;
        }))
        (λ i e. refl) (λ i e. store_ne s.touched b false i e)

  abbrev released : Buf → Buf
  released x = record x { lock = record { locked = false; pid = 0 }; refcnt = count_down x.refcnt }

  released-Coherent :
      (s.cache.buf b).lock.locked ≡ true
      → s.touched b ≡ false
      → Coherent (record s { cache = change b released s.cache })
  released-Coherent l t =
      let v = a.sound b within in
      quiet-Coherent s b released s.refs s.touched a (refl, refl, refl)
        (record {
          loaded = v.loaded;
          marked = v.marked;
          cached = v.cached;
          stored = v.stored;
          kept = λ h. cc;
          counted = ground (arith, v.counted, l);
        })
        (λ i e. refl) (λ i e. refl)

  brelse-cases :
      {c : Bcache} (me : ℕ)
      → holdingsleep me (s.cache.buf b).lock ≡ true
      → brelse me b s.cache ≡ done c
      → (c ≡ change b released s.cache) ⊎ (c ≡ push_front b (unlink b (change b released s.cache)))
  unfolding brelse releasesleep
  brelse-cases {c} me h e = elim (Bool-cases (((change b released s.cache).buf b).refcnt == 0)) [
    | inl z ↦ inr (sym (done_eq (rw (brelse, h, z) at e)))
    | inr z ↦ inl (sym (done_eq (rw (brelse, h, z) at e)))
  ]

  pub release-Coherent :
      {c : Bcache} (me : ℕ)
      → holdingsleep me (s.cache.buf b).lock ≡ true
      → s.touched b ≡ false
      → brelse me b s.cache ≡ done c
      → Coherent (record s { cache = c })
  unfolding holdingsleep
  release-Coherent {c} me h t e =
      let d = released-Coherent (ground (arith, h)) t in
      elim (brelse-cases me h e) [
        | inl q ↦ subst (λ x. Coherent (record s { cache = x })) (sym q) d
        | inr q ↦
            subst (λ x. Coherent (record s { cache = x })) (sym q)
              (relink-Coherent (record s { cache = change b released s.cache }) b within d)
      ]
