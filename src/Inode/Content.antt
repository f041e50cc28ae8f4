-- ===== src/Inode/Content.antt =====
-- The bytes of an inode, and a change to one of its blocks.
use ele.Strings.{Bytes}
use ele.Inode.{Inode, Bytes, ndirect, iblock}
use ele.Base.{
  ℕ, ◌-◌, ◌*◌, ◌/◌, ◌%◌, ◌<◌, ◌≡◌, refl, sym, ap, ◌∙◌, subst, ◌≢◌, inl, inr, true, false, arith,
  ◌==◌, Bool-cases, ==_iff, store_ne, load_word,
}
use ele.Fs.{logged, Fs, bsize, bblock, has_bit, bpb}
use ele.Fs.Bitmap.{used}
use ele.Inode.Slots.{slot, indirect, nslot, IsContent, IsSound, IsContent-mono, IsReserved-mono}

-- Byte `o` of the content.
abbrev pub byte : Inode → Fs → ℕ → ℕ
byte ip s o = s.block (slot ip s (o / bsize)) (o % bsize)

module _ (ip : Inode) (s : Fs) (v : IsSound ip s) (n : ℕ) (bytes : Bytes) where
  -- A block that is none of the bitmap's and not the indirect one.
  pub logged_slots :
      (slot ip s indirect ≢ 0 → (n == slot ip s indirect) ≡ false)
      → (j : ℕ) → j < nslot
      → slot ip (logged n bytes s) j ≡ slot ip s j
  unfolding logged
  logged_slots apart j l = elim (Bool-cases (ip.addrs ndirect == 0)) [
    | inl z ↦ ground (arith, z)
    | inr z ↦
        let same = store_ne s.block n bytes (ip.addrs ndirect) (apart (λ q. cc (rw q at z))) in
        ground (arith, z, ap (λ b. load_word b (4 * (j - ndirect))) same)
  ]

  pub logged-used :
      ((i : ℕ) → i < s.size → (n == bblock i s) ≡ false)
      → (i : ℕ) → i < s.size
      → used (logged n bytes s) i ≡ used s i
  unfolding logged
  logged-used apart i l =
      ap (λ b. has_bit (i % bpb % 8) (b (i % bpb / 8)))
        (store_ne s.block n bytes (bblock i s) (apart i l))

  pub logged-IsSound :
      (slot ip s indirect ≢ 0 → (n == slot ip s indirect) ≡ false)
      → ((i : ℕ) → i < s.size → (n == bblock i s) ≡ false)
      → IsSound ip (logged n bytes s)
  unfolding logged
  logged-IsSound slots_apart bitmap_apart =
      let t = logged n bytes s in
      let still : (i : ℕ) → i < s.size → used s i ≡ true → used t i ≡ true =
        λ i l h. logged-used bitmap_apart i l ∙ h in
      let iblk = iblock ip.inum s in
      let same = logged_slots slots_apart in
      record {
        reserved = IsReserved-mono s t refl refl still v.reserved;
        boot_used = (v.boot_used.0, still 0 v.boot_used.0 v.boot_used.1);
        inodes_used = (v.inodes_used.0, still iblk v.inodes_used.0 v.inodes_used.1);
        inodes_apart = v.inodes_apart;
        small = v.small;
        placed = record {
          content = λ k l ne. subst (IsContent t iblk) (sym (same k l)) (
              IsContent-mono s t iblk (slot ip s k) refl refl still
                (v.placed.content k l (λ z. ne (same k l ∙ z))));
          distinct = λ j k lj lk ne q.
              v.placed.distinct j k lj lk (λ z. ne (same j lj ∙ z))
                (sym (same j lj) ∙ q ∙ same k lk);
        };
      }

-- Two slots with blocks have different ones.
pub slots_apart :
    (ip : Inode) (s : Fs)
    → IsSound ip s
    → (j k : ℕ) → j < nslot
    → k < nslot
    → (j == k) ≡ false
    → slot ip s j ≢ 0
    → (slot ip s j == slot ip s k) ≡ false
slots_apart ip s v j k lj lk e ne = elim (Bool-cases (slot ip s j == slot ip s k)) [
  | inr q ↦ q
  | inl q ↦ absurd (ground (arith, v.placed.distinct j k lj lk ne ((==_iff _ _).0 q), e))
]
