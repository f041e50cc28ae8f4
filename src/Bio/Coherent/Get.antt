-- ===== src/Bio/Coherent/Get.antt =====
-- `bget` (bio.c) keeps the cache coherent, also where it reuses a buffer.
use ele.Bio.Ring.{change-IsRing}
use ele.Bio.Got.{Absent, counted_once, reused}
use ele.Bio.{nbuf, change, Buf, is_unused}
use ele.Bio.Coherent.{
  System, Coherent, nbuf, Sound, on_disk, change-Sound, at_cases, IsUnique, quiet-Coherent,
}
use ele.Base.{
  ℕ, ◌+◌, ◌<◌, ◌≡◌, refl, subst, inl, inr, true, false, arith, ◌==◌, Bool-cases, store, store_ne,
  store_self,
}

module _ (s : System) (a : Coherent s) (b : ℕ) (within : b < nbuf) where
  abbrev after : (Buf → Buf) → System
  after f = record s { cache = change b f s.cache; refs = store s.refs b (s.refs b + 1) }

  others :
      (i : ℕ)
      → (b == i) ≡ false
      → i < nbuf
      → Sound (s.cache.buf i) (store s.refs b (s.refs b + 1) i) (s.touched i) s.cache.memdisk s.view
  others i e l = rw (store_ne s.refs b (s.refs b + 1) i e) (a.sound i l)

  pub hit-Coherent : Coherent (after counted_once)
  hit-Coherent =
      let v = a.sound b within in
      quiet-Coherent s b counted_once (store s.refs b (s.refs b + 1)) s.touched a (refl, refl, refl)
        (rw (store_self s.refs b (s.refs b + 1)) (record {
          loaded = v.loaded;
          marked = v.marked;
          cached = v.cached;
          stored = v.stored;
          kept = v.kept;
          counted = omega (arith, v.counted);
        }))
        (λ i e. store_ne s.refs b (s.refs b + 1) i e) (λ i e. refl)

  -- A buffer that is not in use holds what is on the disk.
  old_home :
      (n : ℕ)
      → is_unused (s.cache.buf b) ≡ true
      → on_disk (s.cache.buf b) n ≡ true
      → s.cache.memdisk n ≡ s.view n
  old_home n u h =
      let v = a.sound b within in
      let same : (s.cache.buf b).blockno ≡ n = ground (arith, h) in
      let idle : s.touched b ≡ false = ground (arith, v.kept, v.counted, u) in
      subst (λ m. s.cache.memdisk m ≡ s.view m) same
        (v.stored (ground (arith, h)) (ground (arith, u)) idle)

  reused-IsUnique :
      (blockno : ℕ)
      → Absent 1 blockno s.cache
      → IsUnique (store s.cache.buf b (reused 1 blockno (s.cache.buf b)))
  unfolding store
  reused-IsUnique blockno absent i j l m p q e =
      ground (arith, a.unique i j l m, absent i l, absent j m)

  pub reused-Coherent :
      (blockno : ℕ)
      → Absent 1 blockno s.cache
      → is_unused (s.cache.buf b) ≡ true
      → Coherent (after (reused 1 blockno))
  unfolding change
  reused-Coherent blockno absent u =
      let v = a.sound b within in
      record {
        ring = (a.ring.0, change-IsRing s.cache b (reused 1 blockno) a.ring.0 a.ring.1);
        sound =
            change-Sound s.cache b (reused 1 blockno) (store s.refs b (s.refs b + 1)) s.touched
              s.cache.memdisk s.view
              (rw (store_self s.refs b (s.refs b + 1)) (record {
                loaded = λ h. cc;
                marked = λ h. cc;
                cached = λ h. cc;
                stored = λ h. cc;
                kept = v.kept;
                counted = ground (arith, v.counted, u);
              }))
              others;
        unique = reused-IsUnique blockno absent;
        home = λ n h. elim (Bool-cases (on_disk (s.cache.buf b) n)) [
          | inl on ↦ old_home n u on
          | inr off ↦ a.home n (
              at_cases (λ i. i < nbuf → on_disk (s.cache.buf i) n ≡ false) b (λ l. off)
                (λ i e l.
                  subst (λ x. on_disk x n ≡ false)
                    (store_ne s.cache.buf b (reused 1 blockno (s.cache.buf b)) i e) (h i l)))
        ];
      }
