-- ===== src/Bio/Coherent.antt =====
-- The cache of bio.c in use on disk 1: whatever the processes do with it, a locked buffer that has
-- been read holds what was last put into its block.
pub mod Get
pub mod Hold
pub mod Bytes
pub mod Transfer
pub mod Used
use ele.Locks.{holdingsleep}
use ele.Bio.{Bcache, Buf, nbuf, bget, lock_buf, bread_locked, change, bwrite, brelse}
use ele.Bio.Ring.{IsRing, change-IsRing}
use ele.Base.{
  refl, sym, ◌∙◌, ℕ, ◌+◌, ◌-◌, ◌<◌, ◌≡◌, Bool, true, false, ◌&&◌, some, List, ◌==◌, if◌then◌else◌,
  done, store, arith, Bool-cases, store_self, inl, store_ne, subst, ==_iff, inr,
}

-- The cache with what the processes have of it: for each buffer the references without the lock, and
-- whether its bytes have been changed since they were last written or logged. `view` is what each
-- block was last given.
pub record System : Type 0 where
  pub cache : Bcache
  pub refs : ℕ → ℕ
  pub touched : ℕ → Bool
  pub view : ℕ → List ℕ

abbrev pub Holds : (me b : ℕ) → System → Type 0
Holds me b s = (b < nbuf) × (holdingsleep me (s.cache.buf b).lock ≡ true)

-- A process calls `bget`, takes the lock, reads, assigns to the bytes, writes, calls `log_write` (which
-- marks the buffer dirty), and releases a buffer that it has not left changed.
pub data Step (s : System) : System → Type 0 where
  gets :
      {c : Bcache} (blockno b : ℕ)
      → bget 1 blockno s.cache ≡ done (b, c)
      → Step s (record s { cache = c; refs = store s.refs b (s.refs b + 1) })
  locks :
      {c : Bcache} (me b : ℕ)
      → b < nbuf
      → 0 < s.refs b
      → lock_buf me b s.cache ≡ some c
      → Step s (record s { cache = c; refs = store s.refs b (s.refs b - 1) })
  reads :
      {c : Bcache} (me b : ℕ)
      → Holds me b s
      → bread_locked me b s.cache ≡ done c
      → Step s (record s { cache = c })
  assigns :
      (me b : ℕ) (v : List ℕ)
      → Holds me b s
      → (s.cache.buf b).valid ≡ true
      → Step s (record s {
        cache = change b (λ x. record x { content = v }) s.cache;
        touched = store s.touched b true;
        view = store s.view (s.cache.buf b).blockno v;
      })
  writes :
      {c : Bcache} (me b : ℕ)
      → Holds me b s
      → (s.cache.buf b).valid ≡ true
      → bwrite me b s.cache ≡ done c
      → Step s (record s { cache = c; touched = store s.touched b false })
  logs :
      (me b : ℕ)
      → Holds me b s
      → (s.cache.buf b).valid ≡ true
      → Step s (record s {
        cache = change b (λ x. record x { dirty = true }) s.cache;
        touched = store s.touched b false;
      })
  releases :
      {c : Bcache} (me b : ℕ)
      → Holds me b s
      → s.touched b ≡ false
      → brelse me b s.cache ≡ done c
      → Step s (record s { cache = c })

pub data Steps (s : System) : System → Type 0 where
  here : Steps s s
  next : {t u : System} → Steps s t → Step t u → Steps s u

abbrev pub on_disk : Buf → ℕ → Bool
on_disk x blockno = x.valid && x.dev == 1 && x.blockno == blockno

-- What holds of each buffer `x`, with `refs` references beside the one of the lock's holder.
pub record Sound (x : Buf) (refs : ℕ) (touched : Bool) (memdisk view : ℕ → List ℕ) : Type 0 where
  pub loaded : x.valid ≡ true → x.dev ≡ 1
  pub marked : x.dirty ≡ true → x.valid ≡ true
  pub cached : x.valid ≡ true → x.content ≡ view x.blockno
  pub stored :
      x.valid ≡ true → x.dirty ≡ false → touched ≡ false → memdisk x.blockno ≡ view x.blockno
  pub kept : touched ≡ true → x.lock.locked ≡ true
  pub counted : x.refcnt ≡ refs + (if x.lock.locked then 1 else 0)

abbrev pub IsUnique : (ℕ → Buf) → Type 0
IsUnique buf =
    (i j : ℕ)
    → i < nbuf
    → j < nbuf
    → (buf i).dev ≡ 1
    → (buf j).dev ≡ 1
    → (buf i).blockno ≡ (buf j).blockno
    → i ≡ j

-- The disk has the blocks that no buffer holds.
abbrev pub HasHome : (ℕ → Buf) → (memdisk view : ℕ → List ℕ) → Type 0
HasHome buf memdisk view =
    (n : ℕ) → ((i : ℕ) → i < nbuf → on_disk (buf i) n ≡ false) → memdisk n ≡ view n

pub record Coherent (s : System) : Type 0 where
  pub ring : (xs : List ℕ) × IsRing s.cache xs
  pub sound :
      (i : ℕ) → i < nbuf → Sound (s.cache.buf i) (s.refs i) (s.touched i) s.cache.memdisk s.view
  pub unique : IsUnique s.cache.buf
  pub home : HasHome s.cache.buf s.cache.memdisk s.view

-- To prove something of all buffers, take the one at `b` apart from the others.
pub at_cases {ℓ} :
    (P : ℕ → Type ℓ) (b : ℕ) → P b → ((i : ℕ) → (b == i) ≡ false → P i) → (i : ℕ) → P i
at_cases P b here_b others i = elim (Bool-cases (b == i)) [
  | inl e ↦ subst P ((==_iff b i).0 e) here_b
  | inr e ↦ others i e
]

-- The buffers stand for the same blocks.
abbrev pub SameKey : Buf → Buf → Type 0
SameKey x y = (y.valid ≡ x.valid) × (y.dev ≡ x.dev) × (y.blockno ≡ x.blockno)

pub change-SameKey :
    (c : Bcache) (b : ℕ) (f : Buf → Buf)
    → SameKey (c.buf b) (f (c.buf b))
    → (i : ℕ) → SameKey (c.buf i) ((change b f c).buf i)
unfolding change
change-SameKey c b f h =
    at_cases (λ i. SameKey (c.buf i) (store c.buf b (f (c.buf b)) i)) b
      (rw (store_self c.buf b (f (c.buf b))) h)
      (λ i e. rw (store_ne c.buf b (f (c.buf b)) i e) (refl, refl, refl))

pub SameKey-IsUnique :
    (buf buf' : ℕ → Buf) → ((i : ℕ) → SameKey (buf i) (buf' i)) → IsUnique buf → IsUnique buf'
SameKey-IsUnique buf buf' k u i j l m p q e =
    u i j l m (sym (k i).1 ∙ p) (sym (k j).1 ∙ q) (sym (k i).2 ∙ e ∙ (k j).2)

pub SameKey-on_disk : (x y : Buf) (n : ℕ) → SameKey x y → on_disk y n ≡ false → on_disk x n ≡ false
SameKey-on_disk x y n k h = ground (arith, k, h)

pub SameKey-home :
    (buf buf' : ℕ → Buf) (memdisk view : ℕ → List ℕ)
    → ((i : ℕ) → SameKey (buf i) (buf' i))
    → HasHome buf memdisk view
    → HasHome buf' memdisk view
SameKey-home buf buf' memdisk view k home n h =
    home n (λ i l. SameKey-on_disk (buf i) (buf' i) n (k i) (h i l))

pub change-Sound :
    (c : Bcache) (b : ℕ) (f : Buf → Buf) (refs : ℕ → ℕ) (touched : ℕ → Bool)
    (memdisk view : ℕ → List ℕ)
    → Sound (f (c.buf b)) (refs b) (touched b) memdisk view
    → ((i : ℕ) → (b == i) ≡ false → i < nbuf → Sound (c.buf i) (refs i) (touched i) memdisk view)
    → (i : ℕ) → i < nbuf
    → Sound ((change b f c).buf i) (refs i) (touched i) memdisk view
unfolding change
change-Sound c b f refs touched memdisk view mine others =
    at_cases
      (λ i. i < nbuf → Sound (store c.buf b (f (c.buf b)) i) (refs i) (touched i) memdisk view) b
      (λ l. rw (store_self c.buf b (f (c.buf b))) mine)
      (λ i e l. rw (store_ne c.buf b (f (c.buf b)) i e) (others i e l))

-- A step that changes one buffer, not the block that it stands for, and neither disk nor view.
pub quiet-Coherent :
    (s : System) (b : ℕ) (f : Buf → Buf) (refs : ℕ → ℕ) (touched : ℕ → Bool)
    → Coherent s
    → SameKey (s.cache.buf b) (f (s.cache.buf b))
    → Sound (f (s.cache.buf b)) (refs b) (touched b) s.cache.memdisk s.view
    → ((i : ℕ) → (b == i) ≡ false → refs i ≡ s.refs i)
    → ((i : ℕ) → (b == i) ≡ false → touched i ≡ s.touched i)
    → Coherent (record s { cache = change b f s.cache; refs = refs; touched = touched })
unfolding change
quiet-Coherent s b f refs touched a k mine refs_same touched_same =
    let keys = change-SameKey s.cache b f k in
    record {
      ring = (a.ring.0, change-IsRing s.cache b f a.ring.0 a.ring.1);
      sound =
          change-Sound s.cache b f refs touched s.cache.memdisk s.view mine
            (λ i e l. rw (refs_same i e, touched_same i e) (a.sound i l));
      unique = SameKey-IsUnique s.cache.buf (change b f s.cache).buf keys a.unique;
      home = SameKey-home s.cache.buf (change b f s.cache).buf s.cache.memdisk s.view keys a.home;
    }
