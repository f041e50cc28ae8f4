-- ===== src/Inode/Samples.antt =====
-- A file of three bytes in block 4 of a disk of ten blocks, with its bitmap in block 3 and its inode in
-- block 2.
use ele.Fs.Bitmap.{used}
use ele.Fs.{has_bit}
use ele.Fs.Blocks.{IsReserved}
use ele.Inode.Slots.{IsPlaced, slot, IsSound, IsContent}
use ele.Fs.{Fs, has_bit, bpb}
use ele.Base.{
  ℕ, ◌+◌, ◌/◌, ◌<◌, ◌≡◌, refl, sym, ◌∙◌, subst, ◌≢◌, true, ◌&&◌, arith, ◌==◌, if◌then◌else◌,
}
use ele.Inode.{Fs, Inode}
use ele.Strings.{Bytes}

-- The disk with the bytes `m` in block 4.
abbrev pub filled_disk : Bytes → Fs
filled_disk m = record {
  size = 10;
  bmapstart = 3;
  inodestart = 2;
  ninodes = 8;
  block = λ n o. if n == 4 then m o else if n == 3 && o == 0 then 31 else 7;
}

abbrev pub disk : Fs
disk = filled_disk (λ o. 7)

abbrev pub three : Inode
three = record {
  inum = 1;
  type = 2;
  major = 0;
  minor = 0;
  nlink = 1;
  size = 3;
  addrs = λ i. if i == 0 then 4 else 0;
}

filled-IsReserved : (m : Bytes) → IsReserved (filled_disk m)
unfolding has_bit
filled-IsReserved m i l =
    let z : i / bpb ≡ 0 = omega (arith, l) in
    subst (λ x. (x + 3 < 10) × (used (filled_disk m) (x + 3) ≡ true)) (sym z) (omega arith, refl)

slot-first : (m : Bytes) (k : ℕ) → slot three (filled_disk m) k ≢ 0 → k ≡ 0
slot-first m k ne = ground (arith, ne)

four-IsContent : (m : Bytes) → IsContent (filled_disk m) 2 4
unfolding has_bit
four-IsContent m = record {
  within = omega arith;
  marked = refl;
  not_inodes = refl;
  not_bitmap = λ i l. ground (arith, l);
}

three-IsPlaced : (m : Bytes) → IsPlaced (filled_disk m) 2 (slot three (filled_disk m))
three-IsPlaced m = record {
  content = λ k l ne.
      subst (λ j. IsContent (filled_disk m) 2 (slot three (filled_disk m) j))
        (sym (slot-first m k ne)) (four-IsContent m);
  distinct = λ j k l h ne e. slot-first m j ne ∙ sym (slot-first m k (λ z. ne (e ∙ z)));
}

-- An inode with the blocks of `three`.
pub three-IsSound :
    (m : Bytes) (type size nlink : ℕ)
    → IsSound (record three { type = type; size = size; nlink = nlink }) (filled_disk m)
unfolding has_bit
three-IsSound m type size nlink = record {
  reserved = filled-IsReserved m;
  boot_used = (omega arith, refl);
  inodes_used = (omega arith, refl);
  inodes_apart = λ i l. ground (arith, l);
  small = omega arith;
  placed = three-IsPlaced m;
}
