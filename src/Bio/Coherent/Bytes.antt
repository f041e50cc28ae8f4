-- ===== src/Bio/Coherent/Bytes.antt =====
-- Reading, assigning and writing the bytes of a locked buffer (bio.c, memide.c) keep the cache coherent.
use ele.Bio.Ring.{change-IsRing}
use ele.Bio.Coherent.Hold.{done_eq}
use ele.Locks.{holdingsleep}
use ele.Bio.Coherent.{
  System, Coherent, IsUnique, on_disk, Sound, change-IsRing, SameKey, at_cases, change-Sound,
  SameKey-on_disk, change-SameKey, SameKey-IsUnique,
}
use ele.Bio.{Buf, iderw, Bcache, change, nbuf, holdingsleep}
use ele.Base.{
  ℕ, ◌<◌, ◌≡◌, refl, sym, ◌∙◌, subst, ◌⊎◌, inl, inr, Bool, true, false, ◌&&◌, not, List, arith, leb,
  ◌==◌, Bool-cases, done, store, ==_iff, store_ne, store_self,
}

abbrev pub filled : List ℕ → Buf → Buf
filled bytes x = record x { content = bytes; valid = true }

abbrev written : Buf → Buf
written x = record x { dirty = false; valid = true }

-- `iderw`, when it returns: a dirty buffer is written, any other is read.
pub iderw-cases :
    (me b : ℕ) (c : Bcache) {d : Bcache}
    → iderw me b c ≡ done d
    → ((c.buf b).dev ≡ 1)
      × (((c.buf b).dirty ≡ true)
            × (d
                ≡ change b written
                    (record c { memdisk = store c.memdisk (c.buf b).blockno (c.buf b).content }))
          ⊎ ((c.buf b).dirty ≡ false)
            × ((c.buf b).valid ≡ false)
            × (d ≡ change b (filled (c.memdisk (c.buf b).blockno)) c))
unfolding iderw
iderw-cases me b c {d} e = elim (Bool-cases (holdingsleep me (c.buf b).lock)) [
  | inr h ↦ absurd (cc (rw (iderw, h) at e))
  | inl h ↦ elim (Bool-cases ((c.buf b).valid && not (c.buf b).dirty)) [
    | inl v ↦ absurd (cc (rw (iderw, h, v) at e))
    | inr v ↦ elim (Bool-cases ((c.buf b).dev == 1)) [
      | inr o ↦ absurd (cc (rw (iderw, h, v, o) at e))
      | inl o ↦ elim (Bool-cases (leb c.disksize (c.buf b).blockno)) [
        | inl z ↦ absurd (cc (rw (iderw, h, v, o, z) at e))
        | inr z ↦ elim (Bool-cases (c.buf b).dirty) [
          | inl y ↦ ((==_iff _ 1).0 o, inl (y, sym (done_eq (rw (iderw, h, v, o, z, y) at e))))
          | inr y ↦ (
            (==_iff _ 1).0 o,
            inr (y, ground (arith, v, y), sym (done_eq (rw (iderw, h, v, o, z, y) at e))),
          )
        ]
      ]
    ]
  ]
]

module _ (s : System) (a : Coherent s) (b : ℕ) (within : b < nbuf) where
  -- Another buffer that has been read is for another block.
  apart :
      (i : ℕ)
      → (b == i) ≡ false
      → i < nbuf
      → (s.cache.buf b).dev ≡ 1
      → (s.cache.buf i).valid ≡ true
      → ((s.cache.buf b).blockno == (s.cache.buf i).blockno) ≡ false
  apart i e l p v = ground (arith, a.unique b i within l, (a.sound i l).loaded v, e, p)

  -- Only the block of a buffer that has been read is changed.
  others :
      (refs : ℕ → ℕ) (touched : ℕ → Bool) (memdisk view : ℕ → List ℕ)
      → (s.cache.buf b).dev ≡ 1
      → ((i : ℕ) → (b == i) ≡ false → refs i ≡ s.refs i)
      → ((i : ℕ) → (b == i) ≡ false → touched i ≡ s.touched i)
      → ((n : ℕ) → ((s.cache.buf b).blockno == n) ≡ false → memdisk n ≡ s.cache.memdisk n)
      → ((n : ℕ) → ((s.cache.buf b).blockno == n) ≡ false → view n ≡ s.view n)
      → (i : ℕ) → (b == i) ≡ false
      → i < nbuf
      → Sound (s.cache.buf i) (refs i) (touched i) memdisk view
  others refs touched memdisk view p rs ts ms vs i e l =
      let v = a.sound i l in
      rw (rs i e, ts i e)
        (record {
          loaded = v.loaded;
          marked = v.marked;
          cached = λ h. v.cached h ∙ sym (vs _ (apart i e l p h));
          stored = λ h k t. ms _ (apart i e l p h) ∙ v.stored h k t ∙ sym (vs _ (apart i e l p h));
          kept = v.kept;
          counted = v.counted;
        })

  -- A block that no buffer holds is not that of `b`.
  away :
      (f : Buf → Buf) (n : ℕ)
      → SameKey (s.cache.buf b) (f (s.cache.buf b))
      → (s.cache.buf b).valid ≡ true
      → ((i : ℕ) → i < nbuf → on_disk ((change b f s.cache).buf i) n ≡ false)
      → (((s.cache.buf b).blockno == n) ≡ false) × (s.cache.memdisk n ≡ s.view n)
  away f n k valid h =
      let old = λ (i : ℕ) (l : i < nbuf).
        SameKey-on_disk (s.cache.buf i) ((change b f s.cache).buf i) n
          (change-SameKey s.cache b f k i) (h i l) in
      (ground (arith, old b within, valid, (a.sound b within).loaded valid), a.home n old)

  pub assign-Coherent :
      (v : List ℕ)
      → (s.cache.buf b).valid ≡ true
      → (s.cache.buf b).lock.locked ≡ true
      → Coherent (record s {
        cache = change b (λ x. record x { content = v }) s.cache;
        touched = store s.touched b true;
        view = store s.view (s.cache.buf b).blockno v;
      })
  unfolding change
  assign-Coherent v valid locked =
      let w = a.sound b within in
      let n = (s.cache.buf b).blockno in
      let f : Buf → Buf = λ x. record x { content = v } in
      record {
        ring = (a.ring.0, change-IsRing s.cache b f a.ring.0 a.ring.1);
        sound =
            change-Sound s.cache b f s.refs (store s.touched b true) s.cache.memdisk
              (store s.view n v)
              (rw (store_self s.touched b true) (record {
                loaded = w.loaded;
                marked = w.marked;
                cached = λ h. sym (store_self s.view n v);
                stored = λ h k t. cc;
                kept = λ h. locked;
                counted = w.counted;
              }))
              (others s.refs (store s.touched b true) s.cache.memdisk (store s.view n v)
                (w.loaded valid) (λ i e. refl) (λ i e. store_ne s.touched b true i e) (λ m e. refl)
                (λ m e. store_ne s.view n v m e));
        unique =
            SameKey-IsUnique s.cache.buf (change b f s.cache).buf
              (change-SameKey s.cache b f (refl, refl, refl)) a.unique;
        home = λ m h.
            let (ne, home) = away f m (refl, refl, refl) valid h in
            home ∙ sym (store_ne s.view n v m ne);
      }

  pub writeback-Coherent :
      (s.cache.buf b).valid ≡ true
      → Coherent (record s {
        cache = change b written (record s.cache {
          memdisk = store s.cache.memdisk (s.cache.buf b).blockno (s.cache.buf b).content;
        });
      })
  unfolding change
  writeback-Coherent valid =
      let w = a.sound b within in
      let x = s.cache.buf b in
      let disk = store s.cache.memdisk x.blockno x.content in
      record {
        ring = (
          a.ring.0,
          change-IsRing (record s.cache { memdisk = disk }) b written a.ring.0
              (record {
                chain = a.ring.1.chain;
                distinct = a.ring.1.distinct;
                members = a.ring.1.members;
                sized = a.ring.1.sized;
              }),
        );
        sound =
            change-Sound s.cache b written s.refs s.touched disk s.view
              (record {
                loaded = λ h. w.loaded valid;
                marked = λ h. refl;
                cached = λ h. w.cached valid;
                stored = λ h k t. store_self s.cache.memdisk x.blockno x.content ∙ w.cached valid;
                kept = w.kept;
                counted = w.counted;
              })
              (others s.refs s.touched disk s.view (w.loaded valid) (λ i e. refl) (λ i e. refl)
                (λ m e. store_ne s.cache.memdisk x.blockno x.content m e) (λ m e. refl));
        unique =
            SameKey-IsUnique s.cache.buf (change b written s.cache).buf
              (change-SameKey s.cache b written (sym valid, refl, refl)) a.unique;
        home = λ m h.
            let (ne, home) = away written m (sym valid, refl, refl) valid h in
            store_ne s.cache.memdisk x.blockno x.content m ne ∙ home;
      }

  pub none_else :
      (s.cache.buf b).dev ≡ 1
      → (s.cache.buf b).valid ≡ false
      → (i : ℕ) → i < nbuf
      → on_disk (s.cache.buf i) (s.cache.buf b).blockno ≡ false
  none_else p h =
      at_cases (λ i. i < nbuf → on_disk (s.cache.buf i) (s.cache.buf b).blockno ≡ false) b
        (λ l. rw h refl) (λ i e l. ground (arith, a.unique b i within l, p, e))

  filled-IsUnique : (bytes : List ℕ) → IsUnique (store s.cache.buf b (filled bytes (s.cache.buf b)))
  unfolding store
  filled-IsUnique bytes i j l m p q e =
      ground (arith, a.unique i j l m, a.unique b j within m, a.unique i b l within)

  pub fill-Coherent :
      (s.cache.buf b).dev ≡ 1
      → (s.cache.buf b).valid ≡ false
      → Coherent
          (record s { cache = change b (filled (s.cache.memdisk (s.cache.buf b).blockno)) s.cache })
  unfolding change
  fill-Coherent p h =
      let w = a.sound b within in
      let x = s.cache.buf b in
      let bytes = s.cache.memdisk x.blockno in
      let fresh : bytes ≡ s.view x.blockno = a.home x.blockno (none_else p h) in
      record {
        ring = (a.ring.0, change-IsRing s.cache b (filled bytes) a.ring.0 a.ring.1);
        sound =
            change-Sound s.cache b (filled bytes) s.refs s.touched s.cache.memdisk s.view
              (record {
                loaded = λ _. p;
                marked = λ _. refl;
                cached = λ _. fresh;
                stored = λ _ _ _. fresh;
                kept = w.kept;
                counted = w.counted;
              })
              (λ i e l. a.sound i l);
        unique = filled-IsUnique bytes;
        home = λ m k. a.home m (
            at_cases (λ i. i < nbuf → on_disk (s.cache.buf i) m ≡ false) b (λ l. rw h refl)
              (λ i e l.
                subst (λ y. on_disk y m ≡ false) (store_ne s.cache.buf b (filled bytes x) i e)
                  (k i l)));
      }
