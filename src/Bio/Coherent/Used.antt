-- ===== src/Bio/Coherent/Used.antt =====
-- Any use of the buffer cache (bio.c, memide.c) from its start on.
use ele.Bio.Start.{counted, binit-IsRing}
use ele.Locks.{initsleeplock, holdingsleep, Sleeplock}
use ele.Base.{
  ℕ, zero, suc, ◌+◌, ◌<◌, ◌≡◌, refl, sym, ap, ◌∙◌, subst, ◌⊎◌, inl, inr, true, false, ◌||◌, [],
  arith, leb, ◌==◌, Bool-cases, Outcome, done, store, lt→ltb, ltb→lt, ==_iff, store_self,
}
use ele.Bio.Coherent.{
  System, Coherent, Holds, Step, Steps, here, next, on_disk, gets, locks, reads, assigns, writes,
  logs, releases, IsUnique, at_cases,
}
use ele.Bio.Coherent.Transfer.{read-Coherent, write-Coherent}
use ele.Bio.Coherent.Get.{hit-Coherent, reused-Coherent}
use ele.Bio.Coherent.Hold.{lock-Coherent, log-Coherent, release-Coherent}
use ele.Bio.Coherent.Bytes.{assign-Coherent, filled, none_else}
use ele.Bio.Got.{bget-cases, counted_once, reused}
use ele.Bio.Scan.{first-cases}
use ele.Bio.{
  binit_loop, binit, Buf, Bcache, bget, push_front, nbuf, change, initsleeplock, head, bread_locked,
  holdingsleep, Sleeplock, iderw,
}

-- A buffer of the zeroed `bcache`.
abbrev pub IsBlank : Buf → Type 0
IsBlank x =
    (x.valid ≡ false) × (x.dirty ≡ false) × (x.dev ≡ 0) × (x.refcnt ≡ 0) × (x.lock.locked ≡ false)

-- After `binit`, no process has a buffer.
abbrev pub booted : Bcache → System
booted c = record { cache = binit c; refs = λ i. 0; touched = λ i. false; view = c.memdisk }

binit_loop-IsBlank :
    (n b : ℕ) (c : Bcache)
    → ((i : ℕ) → IsBlank (c.buf i))
    → ((i : ℕ) → IsBlank ((binit_loop n b c).buf i)) × ((binit_loop n b c).memdisk ≡ c.memdisk)
unfolding binit_loop push_front change store
binit_loop-IsBlank zero b c h = (h, refl)
binit_loop-IsBlank (suc n) b c h =
    binit_loop-IsBlank n (b + 1)
      (push_front b (change b (λ x. record x { lock = initsleeplock }) c))
      (λ i. ground (arith, h i, h b))

booted-Coherent : (c : Bcache) → ((i : ℕ) → IsBlank (c.buf i)) → Coherent (booted c)
unfolding binit
booted-Coherent c h =
    let (blank, disk) =
      binit_loop-IsBlank nbuf 0
        (record c { next = store c.next head head; prev = store c.prev head head }) h in
    record {
      ring = (counted nbuf 0 [], binit-IsRing c);
      sound = λ i l. record {
        loaded = λ v. absurd (cc (v, (blank i).0));
        marked = λ v. absurd (cc (v, (blank i).1));
        cached = λ v. absurd (cc (v, (blank i).0));
        stored = λ v. absurd (cc (v, (blank i).0));
        kept = λ v. cc;
        counted = ground (arith, blank i);
      };
      unique = λ i j l m p. absurd (omega (arith, p, (blank i).2));
      home = λ n h. ap (λ d. d n) disk;
    }

holds_locked : (me : ℕ) (lk : Sleeplock) → holdingsleep me lk ≡ true → lk.locked ≡ true
unfolding holdingsleep
holds_locked me lk h = ground (arith, h)

got-Coherent :
    (s : System) (b : ℕ) {c : Bcache} (f : Buf → Buf) (i : ℕ)
    → ◌≡◌ {A = Outcome (ℕ × Bcache)} (done (i, change i f s.cache)) (done (b, c))
    → Coherent (record s { cache = change i f s.cache; refs = store s.refs i (s.refs i + 1) })
    → Coherent (record s { cache = c; refs = store s.refs b (s.refs b + 1) })
got-Coherent s b {c} f i e a =
    let same : i ≡ b = ground arith in
    let out : change i f s.cache ≡ c = ground arith in rw (sym same, sym out) a

get-Coherent :
    (s : System) (blockno b : ℕ) {c : Bcache}
    → Coherent s
    → bget 1 blockno s.cache ≡ done (b, c)
    → Coherent (record s { cache = c; refs = store s.refs b (s.refs b + 1) })
get-Coherent s blockno b {c} a e = elim (bget-cases 1 blockno s.cache a.ring.0 a.ring.1) [
  | inl (i, l, k, q) ↦ got-Coherent s b counted_once i (sym q ∙ e) (hit-Coherent s a i l)
  | inr (inl (absent, i, l, o, q)) ↦
      got-Coherent s b (reused 1 blockno) i (sym q ∙ e)
        (reused-Coherent s a i l blockno absent o.passes)
  | inr (inr (absent, all, q)) ↦ cc
]

Step-Coherent : {s t : System} → Step s t → Coherent s → Coherent t
Step-Coherent {s} (gets blockno b e) a = get-Coherent s blockno b a e
Step-Coherent {s} (locks me b l r e) a = lock-Coherent s a b l me r e
Step-Coherent {s} (reads me b h e) a = read-Coherent s me b h.0 a e
Step-Coherent {s} (assigns me b v h valid) a =
    assign-Coherent s a b h.0 v valid (holds_locked _ _ h.1)
Step-Coherent {s} (writes me b h v e) a = write-Coherent s me b h.0 a v e
Step-Coherent {s} (logs me b h v) a = log-Coherent s a b h.0 v
Step-Coherent {s} (releases me b h t e) a = release-Coherent s a b h.0 me h.1 t e

Steps-Coherent : {s t : System} → Steps s t → Coherent s → Coherent t
Steps-Coherent here a = a
Steps-Coherent (next r x) a = Step-Coherent x (Steps-Coherent r a)

only_one :
    (t : System) (b n : ℕ)
    → b < nbuf
    → IsUnique t.cache.buf
    → on_disk (t.cache.buf b) n ≡ true
    → (i : ℕ) → i < nbuf
    → on_disk (t.cache.buf i) n ≡ (b == i)
only_one t b n l u h =
    at_cases (λ i. i < nbuf → on_disk (t.cache.buf i) n ≡ (b == i)) b (λ k. ground (arith, h))
      (λ i e k. ground (arith, u b i l k, h, e))

-- At any moment each block of the disk is either in one buffer that has been read, which then holds
-- what the block was last given, the disk as well unless the buffer is dirty or being changed, or it
-- is in none, and the disk holds what it was last given.
pub Steps-latest :
    (c : Bcache)
    → ((i : ℕ) → IsBlank (c.buf i))
    → {t : System} → Steps (booted c) t
    → (n : ℕ)
    → ((b : ℕ) × (b < nbuf)
        × (on_disk (t.cache.buf b) n ≡ true)
        × ((t.cache.buf b).content ≡ t.view n)
        × ((((t.cache.buf b).dirty || t.touched b) ≡ true) ⊎ (t.cache.memdisk n ≡ t.view n))
        × ((i : ℕ) → i < nbuf → on_disk (t.cache.buf i) n ≡ (b == i)))
      ⊎ (((i : ℕ) → i < nbuf → on_disk (t.cache.buf i) n ≡ false) × (t.cache.memdisk n ≡ t.view n))
Steps-latest c blank {t} r n =
    let a = Steps-Coherent r (booted-Coherent c blank) in
    elim (first-cases (λ x. on_disk x n) t.cache.buf a.ring.0) [
      | inl (e, all) ↦
          let absent = λ (i : ℕ) (l : i < nbuf). all i (a.ring.1.members i ∙ lt→ltb i nbuf l) in
          inr (absent, a.home n absent)
      | inr (b, e, m, h) ↦
          let l = ltb→lt b nbuf (sym (a.ring.1.members b) ∙ m) in
          let w = a.sound b l in
          let same : (t.cache.buf b).blockno ≡ n = ground (arith, h) in
          let valid : (t.cache.buf b).valid ≡ true = ground (arith, h) in
          inl (
            b,
            l,
            h,
            w.cached valid ∙ ap t.view same,
            (elim (Bool-cases ((t.cache.buf b).dirty || t.touched b)) [
              | inl q ↦ inl q
              | inr q ↦ inr (
                  subst (λ k. t.cache.memdisk k ≡ t.view k) same
                    (w.stored valid (ground (arith, q)) (ground (arith, q))))
            ]),
            λ i k. only_one t b n l a.unique h i k,
          )
    ]

fetch :
    (b : ℕ) (c : Bcache) (me : ℕ)
    → holdingsleep me (c.buf b).lock ≡ true
    → (c.buf b).valid ≡ false
    → (c.buf b).dirty ≡ false
    → (c.buf b).dev ≡ 1
    → (c.buf b).blockno < c.disksize
    → iderw me b c ≡ done (change b (filled (c.memdisk (c.buf b).blockno)) c)
unfolding iderw
fetch b c me h v y p z =
    let fits : leb c.disksize (c.buf b).blockno ≡ false = ground (arith, z) in
    let first : ((c.buf b).dev == 1) ≡ true = (==_iff _ 1).1 p in
    rw (iderw, h, v, first, fits, y) refl

-- `bread` of a block of the disk, once the process has the buffer's lock, returns with the bytes that
-- the block was last given in the buffer.
Steps-bread :
    (c : Bcache)
    → ((i : ℕ) → IsBlank (c.buf i))
    → {t : System} → Steps (booted c) t
    → (me b : ℕ) → Holds me b t
    → (t.cache.buf b).dev ≡ 1
    → (t.cache.buf b).blockno < t.cache.disksize
    → (d : Bcache) × (bread_locked me b t.cache ≡ done d)
      × ((d.buf b).valid ≡ true)
      × ((d.buf b).blockno ≡ (t.cache.buf b).blockno)
      × ((d.buf b).content ≡ t.view (t.cache.buf b).blockno)
unfolding bread_locked change
Steps-bread c blank {t} r me b (l, h) p z =
    let a = Steps-Coherent r (booted-Coherent c blank) in
    let w = a.sound b l in
    elim (Bool-cases (t.cache.buf b).valid) [
      | inl v ↦ (t.cache, rw (bread_locked, v) refl, v, refl, w.cached v)
      | inr v ↦
          let f = filled (t.cache.memdisk (t.cache.buf b).blockno) in
          let got : (change b f t.cache).buf b ≡ f (t.cache.buf b) = store_self t.cache.buf b _ in
          let clean : (t.cache.buf b).dirty ≡ false = ground (arith, w.marked, v) in
          (
            change b f t.cache,
            rw (bread_locked, v, fetch b t.cache me h v clean p z) refl,
            ap (λ x. x.valid) got,
            ap (λ x. x.blockno) got,
            ap (λ x. x.content) got ∙ a.home _ (none_else t a b l p v),
          )
    ]
