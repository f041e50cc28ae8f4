-- ===== src/Inode/Tests.antt =====
-- The file of Inode/Samples, a write behind its first two bytes and a read, and the theorems at them.
use ele.Inode.Samples.{disk, three, three-IsSound}
use ele.Inode.Truncated.{itrunc-Freed}
use ele.Inode.Freed.{has_block}
use ele.Inode.Trunc.{itrunc}
use ele.Inode.Disk.{Same, on_disk, read_inode-iupdate}
use ele.Inode.Stored.{IsStored}
use ele.Fs.Bitmap.{used}
use ele.Fs.Free.{free}
use ele.Fs.{balloc, balloc_from, free_bit, has_bit, set_bit, bzero, logged}
use ele.Strings.{stosl, memset}
use ele.Inode.Read.{readi-byte}
use ele.Inode.Content.{byte}
use ele.Inode.Write.{IsFile, Overwritten, writei-Overwritten}
use ele.Strings.{Bytes}
use ele.Inode.Slots.{slot}
use ele.Fs.{Fs, has_bit}
use ele.Base.{
  not, ℕ, ◌+◌, ◌<◌, ◌≡◌, refl, ◌≢◌, ◌⊎◌, Bool, false, ◌&&◌, arith, ltb, ◌==◌, if◌then◌else◌,
  Outcome, done, panic, ◌>>=◌, store, store_word, store_short,
}
use ele.Inode.{
  writei, readi, writei_loop, readi_loop, bmap, map_direct, iupdate, put_dinode, put_addrs, Fs,
  moved, Inode, Bytes, Moved, read_inode,
}

abbrev source : Bytes
source x = 65 + x

abbrev no_devices : ℕ → Bool
no_devices d = false

three-IsFile : IsFile three disk
three-IsFile = record {
  sound = three-IsSound (λ o. 7) 2 3 1;
  dense = λ o l z. ground (arith, l, z);
  bounded = omega arith;
}

writei-Overwritten_example :
    ((writei no_devices three source 2 3 disk ≡ panic) × (free disk < 2))
    ⊎ ((ip' : Inode) × (t : Fs) × (writei no_devices three source 2 3 disk ≡ done (moved 3, ip', t))
        × IsFile ip' t
        × (ip'.type ≡ 2)
        × (ip'.size ≡ 5)
        × Overwritten 2 3 source three disk ip' t)
writei-Overwritten_example =
    writei-Overwritten no_devices 2 3 source three disk three-IsFile (λ e. ground (arith, e))
      (omega arith) (omega arith)

readi-byte_example :
    (dst' : Bytes) × (count : ℕ) × (readi no_devices three source 1 8 disk
      ≡ done (moved count, dst', three, disk))
    × (count ≡ 2)
    × ((x : ℕ) → dst' x ≡ (if ltb x count then byte three disk (1 + x) else source x))
readi-byte_example =
    readi-byte no_devices 1 8 source three disk three-IsFile (λ e. ground (arith, e)) (omega arith)
      (omega arith)

-- The loop takes the last two bytes.
abbrev first_bytes : Outcome (Moved × Bytes × Inode × Fs) → Outcome (Moved × ℕ × ℕ × ℕ)
first_bytes r = r >>= λ (m, d, i, t). done (m, d 0, d 1, d 2)

readi-two : first_bytes (readi no_devices three source 1 8 disk) ≡ done (moved 2, 7, 7, 67)
unfolding readi readi_loop bmap map_direct
readi-two = refl

-- A file with no block gets block 4.
abbrev empty : Inode
empty = record three { size = 0; addrs = λ i. 0 }

abbrev clean : Fs
clean = record disk { block = λ n o. if n == 3 && o == 0 then 15 else 7 }

abbrev written : Outcome (Moved × Inode × Fs) → Outcome (Moved × ℕ × ℕ × ℕ × ℕ × ℕ)
written r = r >>= λ (m, i, t). done (m, i.size, i.addrs 0, t.block 4 1, t.block 4 2, t.block 2 72)

writei-two : written (writei no_devices empty source 0 2 clean) ≡ done (moved 2, 2, 4, 66, 0, 2)
unfolding writei writei_loop bmap map_direct balloc balloc_from free_bit has_bit set_bit bzero
    logged iupdate put_dinode put_addrs store store_word store_short memset stosl
writei-two = refl

three-IsStored : IsStored three
three-IsStored = record {
  type_short = omega arith;
  major_short = omega arith;
  minor_short = omega arith;
  nlink_short = omega arith;
  size_word = omega arith;
  addr_words = λ i l. ground arith;
}

read_inode-iupdate_example :
    ((ip' : Inode) × (read_inode 1 (iupdate three disk) ≡ done ip') × Same ip' three)
    × ((j : ℕ) → j ≢ 1 → Same (on_disk j (iupdate three disk)) (on_disk j disk))
read_inode-iupdate_example = read_inode-iupdate three disk three-IsStored (λ e. ground (arith, e))

itrunc-Freed_example :
    (cut : Inode) × (t : Fs) × (itrunc three disk ≡ done (cut, t))
    × (cut.size ≡ 0)
    × IsFile cut t
    × ((k : ℕ) → k < 141 → slot cut t k ≡ 0)
    × (t.size ≡ 10)
    × ((i : ℕ) → i < 10 → used t i ≡ (used disk i && not (has_block (slot three disk) 141 i)))
itrunc-Freed_example = itrunc-Freed three disk (three-IsSound (λ o. 7) 2 3 1)
