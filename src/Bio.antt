-- ===== src/Bio.antt =====
-- xv6-public/bio.c: the buffer cache, over the disk in memory of xv6-public/memide.c. A buffer is its
-- index in `bcache.buf`; the list head has the index `nbuf`. A process that has to wait for a buffer
-- stops after `bget` has counted it, and goes on with `bread_locked` once it has the lock.
pub mod Chain
pub mod Scan
pub mod Ring
pub mod Start
pub mod Got
pub mod Coherent
mod Tests
use ele.Locks.{Sleeplock, acquiresleep, holdingsleep, initsleeplock, releasesleep}
use ele.Base.{
  ℕ, zero, suc, ◌+◌, ◌-◌, ◌*◌, ◌/◌, ◌%◌, ◌^◌, ◌≤◌, ◌<◌, ◌≡◌, refl, sym, ap, ap₂, ◌∙◌, subst, ◌≢◌,
  ◌↔◌, ◌⊎◌, inl, inr, Bool, true, false, ◌&&◌, ◌||◌, not, Option, none, some, List, [], ◌∷◌, ◌++◌,
  map, arith, dec_lt, ℕ_discrete, ltb, leb, ◌==◌, if◌then◌else◌, Bool-cases, Option-cases, length,
  get_elem?, get_or, replicate, take, drop, Outcome, done, panic, undefined, ◌>>=◌, >>=-eq-done,
  pos, negsuc, ℤ, length-append, store,
}

-- `NBUF` of param.h.
abbrev pub nbuf : ℕ
nbuf = 30

abbrev pub head : ℕ
head = nbuf

-- `struct buf`, without the links. `flags` is the two bits `B_VALID` and `B_DIRTY`.
pub record Buf : Type 0 where
  pub valid : Bool
  pub dirty : Bool
  pub dev : ℕ
  pub blockno : ℕ
  pub lock : Sleeplock
  pub refcnt : ℕ
  pub content : List ℕ

-- `bcache`, and `memdisk` with its size.
pub record Bcache : Type 0 where
  pub buf : ℕ → Buf
  pub next : ℕ → ℕ
  pub prev : ℕ → ℕ
  pub memdisk : ℕ → List ℕ
  pub disksize : ℕ

-- Assignments to fields of one buffer.
unfoldable pub change : ℕ → (Buf → Buf) → Bcache → Bcache
change b f c = record c { buf = store c.buf b (f (c.buf b)) }

-- The four assignments that put a buffer behind the head.
unfoldable pub push_front : ℕ → Bcache → Bcache
push_front b c =
    let next' = store c.next b (c.next head) in
    let prev' = store c.prev b head in
    record c { next = store next' head b; prev = store prev' (next' head) b }

-- `b->next->prev = b->prev; b->prev->next = b->next;`
unfoldable pub unlink : ℕ → Bcache → Bcache
unlink b c =
    let prev' = store c.prev (c.next b) (c.prev b) in
    record c { prev = prev'; next = store c.next (prev' b) (c.next b) }

unfoldable pub binit_loop : (n b : ℕ) → Bcache → Bcache
binit_loop zero b c = c
binit_loop (suc n) b c =
    binit_loop n (b + 1) (push_front b (change b (λ x. record x { lock = initsleeplock }) c))

unfoldable pub binit : Bcache → Bcache
binit c =
    binit_loop nbuf 0 (record c { next = store c.next head head; prev = store c.prev head head })

-- A loop over the list from `b` on, along `next` or `prev`: the first buffer that passes the test.
-- `fuel` bounds the steps.
unfoldable pub scan : (fuel : ℕ) → (ℕ → ℕ) → (Buf → Bool) → (b : ℕ) → (ℕ → Buf) → Option ℕ
scan zero step test b buf = none
scan (suc fuel) step test b buf =
    if b == head then none else if test (buf b) then some b else scan fuel step test (step b) buf

abbrev pub is_block : (dev blockno : ℕ) → Buf → Bool
is_block dev blockno x = x.dev == dev && x.blockno == blockno

abbrev pub is_unused : Buf → Bool
is_unused x = x.refcnt == 0 && not x.dirty

-- `bget` up to its `acquiresleep`.
unfoldable pub bget : (dev blockno : ℕ) → Bcache → Outcome (ℕ × Bcache)
bget dev blockno c = elim (scan (nbuf + 1) c.next (is_block dev blockno) (c.next head) c.buf) [
  | some b ↦ done (b, change b (λ x. record x { refcnt = x.refcnt + 1 }) c)
  | none ↦ elim (scan (nbuf + 1) c.prev is_unused (c.prev head) c.buf) [
    | some b ↦ done (
      b,
      change b
          (λ x. record x { dev = dev; blockno = blockno; valid = false; dirty = false; refcnt = 1 })
          c,
    )
    | none ↦ panic
  ]
]

-- `acquiresleep(&b->lock)`
unfoldable pub lock_buf : (me b : ℕ) → Bcache → Option Bcache
lock_buf me b c = elim (acquiresleep me (c.buf b).lock) [
  | none ↦ none
  | some lk ↦ some (change b (λ x. record x { lock = lk }) c)
]

-- `iderw` of memide.c.
unfoldable pub iderw : (me b : ℕ) → Bcache → Outcome Bcache
iderw me b c =
    let x = c.buf b in
    if not (holdingsleep me x.lock)
    then panic
    else if x.valid && not x.dirty
    then panic
    else if not (x.dev == 1)
    then panic
    else if leb c.disksize x.blockno
    then panic
    else if x.dirty
    then done (
        change b (λ y. record y { dirty = false; valid = true })
          (record c { memdisk = store c.memdisk x.blockno x.content }))
    else done (change b (λ y. record y { content = c.memdisk x.blockno; valid = true }) c)

-- `bread` after the lock is taken.
unfoldable pub bread_locked : (me b : ℕ) → Bcache → Outcome Bcache
bread_locked me b c = if (c.buf b).valid then done c else iderw me b c

unfoldable pub bwrite : (me b : ℕ) → Bcache → Outcome Bcache
bwrite me b c =
    if not (holdingsleep me (c.buf b).lock)
    then panic
    else iderw me b (change b (λ x. record x { dirty = true }) c)

-- `--` on the `uint` count of references, which stays far below 2 ^ 32 otherwise.
abbrev pub count_down : ℕ → ℕ
count_down n = if n == 0 then 4294967295 else n - 1

unfoldable pub brelse : (me b : ℕ) → Bcache → Outcome Bcache
brelse me b c =
    let less =
      change b (λ x. record x { lock = releasesleep x.lock; refcnt = count_down x.refcnt }) c in
    if not (holdingsleep me (c.buf b).lock)
    then panic
    else if (less.buf b).refcnt == 0
    then done (push_front b (unlink b less))
    else done less
