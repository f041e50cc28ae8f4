-- ===== src/Icache/Tests.antt =====
-- A table with an inode that has no links any more, and the theorems at it.
use ele.Icache.Alloc.{IsNew, ialloc-first}
use ele.Fs.{Fs}
use ele.Inode.Disk.{on_disk, Same}
use ele.Icache.Last.{iput-last}
use ele.Inode.Freed.{has_block}
use ele.Inode.{read_inode}
use ele.Icache.Holders.{IsZeroed, System, Turns-IsCounted, Turns-iget, Turns, next, here, gets}
use ele.Icache.Counts.{IsCounted}
use ele.Inode.Slots.{IsSound, slot}
use ele.Base.{
  ℕ, ◌≤◌, ◌<◌, ◌≡◌, refl, ◌≢◌, ◌⊎◌, true, false, ◌&&◌, not, arith, ◌==◌, if◌then◌else◌, done, panic,
  pos, store,
}
use ele.Icache.{
  is_inode, Icache, Entry, iget, iput, idup, set_entry, read_inode, iget_loop, recycled, ialloc, Fs,
}
use ele.Fs.Bitmap.{used}
use ele.Inode.Samples.{disk, three, three-IsSound}

abbrev vacant : Entry
vacant = record { dev = 1; ref = pos 0; valid = false; node = three }

abbrev loaded : Entry
loaded = record { dev = 1; ref = pos 1; valid = true; node = record three { nlink = 0 } }

abbrev boot : System
boot = record { cache = record { entry = λ k. vacant; fs = disk }; held = λ k. 0 }

abbrev one_held : System
one_held = record {
  cache = set_entry 0 (recycled 1 1 0 boot.cache) boot.cache;
  held = store boot.held 0 1;
}

boot-IsZeroed : IsZeroed boot
boot-IsZeroed k = (refl, refl)

to_one : Turns boot one_held
unfolding iget iget_loop
to_one = next here (gets 1 1 0 refl)

Turns-IsCounted_example : IsCounted one_held.cache.entry one_held.held
Turns-IsCounted_example = Turns-IsCounted boot-IsZeroed to_one

one_of_first : 0 < one_held.held 0
unfolding store
one_of_first = omega arith

Turns-iget_example :
    iget (one_held.cache.entry 0).dev (one_held.cache.entry 0).node.inum one_held.cache
    ≡ done (0, idup 0 one_held.cache)
Turns-iget_example = Turns-iget 0 boot-IsZeroed to_one (omega arith) one_of_first

abbrev last_one : Icache
last_one = record { entry = λ k. if k == 0 then loaded else vacant; fs = disk }

unlinked-IsSound : IsSound loaded.node disk
unlinked-IsSound = three-IsSound (λ o. 7) 2 3 0

abbrev one_reference : ℕ → ℕ
one_reference k = if k == 0 then 1 else 0

last-IsCounted : IsCounted last_one.entry one_reference
last-IsCounted = record {
  counts = λ k l. ground arith;
  unique = λ j k lj lk h g p q. ground (arith, h, g);
}

iput-last_example :
    (d : Icache) × (iput 0 last_one ≡ done d)
    × ((d.entry 0).ref ≡ pos 0)
    × ((d.entry 0).valid ≡ false)
    × ((j : ℕ) → j < 50 → is_inode 1 1 (d.entry j) ≡ false)
    × (read_inode 1 d.fs ≡ panic)
    × ((i : ℕ)
        → i < 10
        → used d.fs i ≡ (used disk i && not (has_block (slot loaded.node disk) 141 i)))
iput-last_example =
    iput-last 0 last_one one_reference last-IsCounted (omega arith) refl refl refl unlinked-IsSound

ialloc-first_example :
    (((j : ℕ) → 1 ≤ j → j < 8 → (on_disk j disk).type ≢ 0) × (ialloc 1 2 last_one ≡ panic))
    ⊎ ((n : ℕ) × (t : Fs) × (1 ≤ n)
        × (n < 8)
        × ((on_disk n disk).type ≡ 0)
        × ((j : ℕ) → 1 ≤ j → j < n → (on_disk j disk).type ≢ 0)
        × (ialloc 1 2 last_one ≡ iget 1 n (record last_one { fs = t }))
        × IsNew n 2 (on_disk n t)
        × ((j : ℕ) → j ≢ n → Same (on_disk j t) (on_disk j disk)))
ialloc-first_example = ialloc-first 1 2 last_one (omega arith)
