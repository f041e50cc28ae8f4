-- ===== src/Inode/Slots.antt =====
-- The blocks of an inode (fs.c): slots 0 to 139 are its content, slot 140 is the indirect block, and a
-- slot without a block is 0.
use ele.Fs.Blocks.{IsReserved}
use ele.Inode.{Inode, ndirect, iblock}
use ele.Fs.{Fs, bblock, bpb}
use ele.Fs.Bitmap.{used}
use ele.Fs.Blocks.{IsReserved}
use ele.Base.{
  ℕ, ◌-◌, ◌*◌, ◌≤◌, ◌<◌, ◌≡◌, refl, sym, ◌∙◌, subst, ◌≢◌, inl, inr, true, false, arith, ltb, ◌==◌,
  if◌then◌else◌, Bool-cases, load_word, ==_iff, ap, ◌/◌, ◌+◌,
}

abbrev pub nslot : ℕ
nslot = 141

abbrev pub indirect : ℕ
indirect = 140

abbrev pub slot : Inode → Fs → ℕ → ℕ
slot ip s k =
    if ltb k ndirect
    then ip.addrs k
    else if k == indirect
    then ip.addrs ndirect
    else if ip.addrs ndirect == 0
    then 0
    else load_word (s.block (ip.addrs ndirect)) (4 * (k - ndirect))

-- A block that an inode may have: on the disk, marked as used, and none of the bitmap's nor the one
-- with the inodes at `iblk`.
pub record IsContent (s : Fs) (iblk n : ℕ) : Type 0 where
  pub within : n < s.size
  pub marked : used s n ≡ true
  pub not_inodes : (n == iblk) ≡ false
  pub not_bitmap : (i : ℕ) → i < s.size → (n == bblock i s) ≡ false

-- The slots have blocks for content, no block twice.
pub record IsPlaced (s : Fs) (iblk : ℕ) (slots : ℕ → ℕ) : Type 0 where
  pub content : (k : ℕ) → k < nslot → slots k ≢ 0 → IsContent s iblk (slots k)
  pub distinct : (j k : ℕ) → j < nslot → k < nslot → slots j ≢ 0 → slots j ≡ slots k → j ≡ k

-- The file system and the inode in it.
pub record IsSound (ip : Inode) (s : Fs) : Type 0 where
  pub reserved : IsReserved s
  pub boot_used : (0 < s.size) × (used s 0 ≡ true)
  pub inodes_used : (iblock ip.inum s < s.size) × (used s (iblock ip.inum s) ≡ true)
  pub inodes_apart : (i : ℕ) → i < s.size → (iblock ip.inum s == bblock i s) ≡ false
  pub small : s.size ≤ 4294967296
  pub placed : IsPlaced s (iblock ip.inum s) (slot ip s)

-- Where the bitmap has the same blocks marked and one more.
pub IsContent-mono :
    (s t : Fs) (iblk n : ℕ)
    → t.size ≡ s.size
    → t.bmapstart ≡ s.bmapstart
    → ((i : ℕ) → i < s.size → used s i ≡ true → used t i ≡ true)
    → IsContent s iblk n
    → IsContent t iblk n
IsContent-mono s t iblk n e f h c = record {
  within = rw e c.within;
  marked = h n c.within c.marked;
  not_inodes = c.not_inodes;
  not_bitmap = λ i l. rw f (c.not_bitmap i (omega (arith, l, e)));
}

pub IsReserved-mono :
    (s t : Fs)
    → t.size ≡ s.size
    → t.bmapstart ≡ s.bmapstart
    → ((i : ℕ) → i < s.size → used s i ≡ true → used t i ≡ true)
    → IsReserved s
    → IsReserved t
IsReserved-mono s t e f h r i m =
    let (lower, bit) = r i (omega (arith, m, e)) in
    rw (ap (λ x. i / bpb + x) f, e) (lower, h _ lower bit)

-- A new block in an empty slot.
pub IsPlaced-store :
    (s t : Fs) (iblk : ℕ) (slots slots' : ℕ → ℕ) (k n : ℕ)
    → t.size ≡ s.size
    → t.bmapstart ≡ s.bmapstart
    → ((i : ℕ) → i < s.size → used s i ≡ true → used t i ≡ true)
    → used s n ≡ false
    → IsContent t iblk n
    → IsPlaced s iblk slots
    → k < nslot
    → ((j : ℕ) → j < nslot → slots' j ≡ (if k == j then n else slots j))
    → IsPlaced t iblk slots'
IsPlaced-store s t iblk slots slots' k n e f h un c p l same =
    let not_old : (m i : ℕ) → m ≡ slots i → slots i ≢ 0 → i < nslot → n ≡ m → ⊥ =
      λ m i g ne li r. cc (un, (p.content i li ne).marked, r, g) in
    record {
      content = λ j m ne. elim (Bool-cases (k == j)) [
        | inl q ↦ subst (IsContent t iblk) (sym (same j m ∙ rw q refl)) c
        | inr q ↦
            let old : slots' j ≡ slots j = same j m ∙ rw q refl in
            subst (IsContent t iblk) (sym old)
              (IsContent-mono s t iblk (slots j) e f h (p.content j m (λ z. ne (old ∙ z))))
      ];
      distinct = λ i j li lj ne q.
          let at_i = same i li in
          let at_j = same j lj in
          elim (Bool-cases (k == i)) [
            | inl a ↦ elim (Bool-cases (k == j)) [
              | inl b ↦ sym ((==_iff k i).0 a) ∙ (==_iff k j).0 b
              | inr b ↦
                  let old : n ≡ slots j = sym (at_i ∙ rw a refl) ∙ q ∙ at_j ∙ rw b refl in
                  absurd (not_old n j old (λ z. ne (at_i ∙ rw a (old ∙ z))) lj refl)
            ]
            | inr a ↦ elim (Bool-cases (k == j)) [
              | inl b ↦
                  let old : n ≡ slots i = sym (at_j ∙ rw b refl) ∙ sym q ∙ at_i ∙ rw a refl in
                  absurd (not_old n i old (λ z. ne (at_i ∙ rw a z)) li refl)
              | inr b ↦
                  p.distinct i j li lj (λ z. ne (at_i ∙ rw a z))
                    (sym (at_i ∙ rw a refl) ∙ q ∙ at_j ∙ rw b refl)
            ]
          ];
    }
