-- ===== src/Bio/Tests.antt =====
-- A process reads a block of the disk, changes it and releases it; and the theorems at that run.
use ele.Base.{ℕ, ◌<◌, ◌≡◌, refl, ◌⊎◌, true, false, ◌||◌, [], ◌∷◌, arith, ◌==◌, done, store}
use ele.Locks.{holdingsleep, acquiresleep}
use ele.Bio.{
  Bcache, Buf, bget, lock_buf, scan, acquiresleep, change, binit, binit_loop, push_front, nbuf,
  bread_locked, iderw,
}
use ele.Bio.Coherent.{System, Steps, here, next, Holds, gets, locks, on_disk, reads, assigns}
use ele.Bio.Coherent.Used.{booted, IsBlank, Steps-latest}
use ele.Bio.Got.{reused}

abbrev blank_buf : Buf
blank_buf = record {
  valid = false;
  dirty = false;
  dev = 0;
  blockno = 0;
  lock = record { locked = false; pid = 0 };
  refcnt = 0;
  content = [];
}

-- The zeroed cache over a disk of 100 blocks, of which each holds its number.
abbrev zeroed : Bcache
zeroed = record {
  buf = λ i. blank_buf;
  next = λ i. 0;
  prev = λ i. 0;
  memdisk = λ n. n ∷ [];
  disksize = 100;
}

zeroed-IsBlank : (i : ℕ) → IsBlank (zeroed.buf i)
zeroed-IsBlank i = (refl, refl, refl, refl, refl)

abbrev start : System
start = booted zeroed

-- The least recently used buffer is the first of the array.
abbrev got_five : Bcache
got_five = change 0 (reused 1 5) start.cache

got-five : bget 1 5 start.cache ≡ done (0, got_five)
unfolding bget scan binit binit_loop push_front change store
got-five = refl

abbrev with_five : System
with_five = record start { cache = got_five; refs = store start.refs 0 1 }

abbrev locked_five : Bcache
locked_five = change 0 (λ x. record x { lock = record { locked = true; pid = 7 } }) got_five

abbrev at_five : System
at_five = record with_five { cache = locked_five; refs = store with_five.refs 0 0 }

to_five : Steps start at_five
unfolding lock_buf acquiresleep change store binit binit_loop push_front
to_five = next (next here (gets 5 0 got-five)) (locks 7 0 (ground arith) (ground arith) refl)

Holds-five : Holds 7 0 at_five
unfolding holdingsleep change store
Holds-five = (ground arith, refl)

-- `bread` brings the bytes of the block.
abbrev read_five : Bcache
read_five = change 0 (λ x. record x { content = 5 ∷ []; valid = true }) locked_five

reads_five : bread_locked 7 0 at_five.cache ≡ done read_five
unfolding bread_locked iderw holdingsleep change store binit binit_loop push_front
reads_five = refl

abbrev have_five : System
have_five = record at_five { cache = read_five }

-- The process changes them and logs the block.
abbrev changed_five : System
changed_five = record have_five {
  cache = change 0 (λ x. record x { content = 8 ∷ [] }) read_five;
  touched = store have_five.touched 0 true;
  view = store have_five.view 5 (8 ∷ []);
}

to_changed : Steps start changed_five
unfolding holdingsleep change store binit binit_loop push_front
to_changed =
    next (next to_five (reads 7 0 Holds-five reads_five))
      (assigns 7 0 (8 ∷ []) (ground arith, refl) refl)

Steps-latest_example :
    ((b : ℕ) × (b < nbuf)
      × (on_disk (changed_five.cache.buf b) 5 ≡ true)
      × ((changed_five.cache.buf b).content ≡ changed_five.view 5)
      × ((((changed_five.cache.buf b).dirty || changed_five.touched b) ≡ true)
          ⊎ (changed_five.cache.memdisk 5 ≡ changed_five.view 5))
      × ((i : ℕ) → i < nbuf → on_disk (changed_five.cache.buf i) 5 ≡ (b == i)))
    ⊎ (((i : ℕ) → i < nbuf → on_disk (changed_five.cache.buf i) 5 ≡ false)
        × (changed_five.cache.memdisk 5 ≡ changed_five.view 5))
Steps-latest_example = Steps-latest zeroed zeroed-IsBlank to_changed 5

five_dev : (at_five.cache.buf 0).dev ≡ 1
unfolding change store
five_dev = refl

five_within : (at_five.cache.buf 0).blockno < at_five.cache.disksize
unfolding change store binit binit_loop push_front
five_within = ground arith
