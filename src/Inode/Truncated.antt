-- ===== src/Inode/Truncated.antt =====
-- `itrunc` (fs.c): what is left of a file.
use ele.Inode.Content.{logged-used}
use ele.Inode.Write.{IsFile, iupdate-IsSound}
use ele.Strings.{Bytes}
use ele.Base.{
  ℕ, zero, suc, ◌+◌, ◌/◌, ◌<◌, ◌≡◌, refl, ap, ap₂, ◌∙◌, ◌≢◌, inl, inr, true, false, ◌&&◌, arith,
  ltb, ◌==◌, if◌then◌else◌, Bool-cases, done, store, not,
}
use ele.Inode.{put_dinode, dinode_at, Inode, ndirect, nindirect, iblock, Bytes, iupdate}
use ele.Inode.Trunc.{free_entries, free_indirect, itrunc}
use ele.Inode.Freed.{Freed, has_block, Freed-next, Freed-none, Freed-skips}
use ele.Inode.Slots.{slot, nslot, IsSound, indirect}
use ele.Fs.Bitmap.{used, cleared}
use ele.Fs.{Fs, bblock, bpb, bfree, logged}
use ele.Inode.FreeLoops.{free_direct-Freed, free_entries-Freed}

has_block-none :
    (slots : ℕ → ℕ) (k i : ℕ)
    → ((j : ℕ) → j < k → slots j ≢ 0 → (slots j == i) ≡ false)
    → has_block slots k i ≡ false
unfolding has_block
has_block-none slots zero i h = refl
has_block-none slots (suc k) i h =
    let before = has_block-none slots k i (λ j l. h j (omega (arith, l))) in
    elim (Bool-cases (slots k == 0)) [
      | inl e ↦ rw (before, e) refl
      | inr e ↦ rw (before, e, h k (omega arith) (λ z. ground (arith, e, z))) refl
    ]

-- When all blocks of the slots were freed.
module _ (ip : Inode) (s : Fs) (v : IsSound ip s) (u : Fs) (f : Freed (slot ip s) s nslot u) where
  kept_used :
      (i : ℕ)
      → i < s.size
      → used s i ≡ true
      → ((j : ℕ) → j < nslot → slot ip s j ≢ 0 → (slot ip s j == i) ≡ false)
      → used u i ≡ true
  kept_used i l h apart = f.bits i l ∙ rw (h, has_block-none (slot ip s) nslot i apart) refl

  empty-IsSound :
      (ip' : Inode) → ip'.inum ≡ ip.inum → ((j : ℕ) → j < 13 → ip'.addrs j ≡ 0) → IsSound ip' u
  empty-IsSound ip' num clear =
      let blk : iblock ip'.inum u ≡ iblock ip.inum s = ap₂ (λ a b. a / 8 + b) num f.inodes in
      let (within, marked) = v.inodes_used in
      let gone : (j : ℕ) → j < nslot → slot ip' u j ≡ 0 =
        λ j l. ground (arith, l, clear j, clear 12 (omega arith)) in
      record {
        reserved = λ i l.
            let m : i < s.size = omega (arith, l, f.sizes) in
            let (lower, bit) = v.reserved i m in
            rw (ap (λ x. i / bpb + x) f.starts, f.sizes)
              (
                lower,
                kept_used (bblock i s) lower bit
                    (λ j k ne. (v.placed.content j k ne).not_bitmap i m),
              );
        boot_used = (
          rw f.sizes v.boot_used.0,
          kept_used 0 v.boot_used.0 v.boot_used.1 (λ j k ne. ground (arith, ne)),
        );
        inodes_used =
            rw (blk, f.sizes)
              (
                within,
                kept_used (iblock ip.inum s) within marked
                    (λ j k ne. (v.placed.content j k ne).not_inodes),
              );
        inodes_apart = λ i l. rw (blk, f.starts) (v.inodes_apart i (omega (arith, l, f.sizes)));
        small = rw f.sizes v.small;
        placed = record {
          content = λ k l ne. absurd (ne (gone k l));
          distinct = λ j k l m ne e. absurd (ne (gone j l));
        };
      }

cleared_root :
    (addrs : ℕ → ℕ) (j : ℕ) → (j < ndirect → addrs j ≡ 0) → j < 13 → store addrs ndirect 0 j ≡ 0
unfolding store
cleared_root addrs j h l = ground (arith, h, l)

pub iupdate-used :
    (ip : Inode) (s : Fs) → IsSound ip s → (i : ℕ) → i < s.size → used (iupdate ip s) i ≡ used s i
unfolding iupdate
iupdate-used ip s v =
    logged-used ip s v (iblock ip.inum s)
      (put_dinode (dinode_at ip.inum) ip (s.block (iblock ip.inum s))) v.inodes_apart

-- A run of `free_indirect` where there is an indirect block.
free_indirect_runs :
    (ip : Inode) (b : ℕ) (a : Bytes) (t u w : Fs)
    → ip.addrs ndirect ≡ b
    → (b == 0) ≡ false
    → t.block b ≡ a
    → free_entries nindirect 0 a t ≡ done u
    → bfree b u ≡ done w
    → free_indirect ip t ≡ done (record ip { addrs = store ip.addrs ndirect 0 }, w)
unfolding free_indirect
free_indirect_runs ip b a t u w root e same q run = rw (free_indirect, root, e, same, q, run) refl

-- The indirect block and its entries, after the direct blocks.
free_indirect-Freed :
    (ip : Inode) (s : Fs) (ip' : Inode) (t : Fs)
    → IsSound ip s
    → ip'.inum ≡ ip.inum
    → ((j : ℕ) → ip'.addrs j ≡ (if ltb j ndirect then 0 else ip.addrs j))
    → Freed (slot ip s) s ndirect t
    → (cut : Inode) × (u : Fs) × (free_indirect ip' t ≡ done (cut, u))
      × (cut.inum ≡ ip.inum)
      × ((j : ℕ) → j < 13 → cut.addrs j ≡ 0)
      × Freed (slot ip s) s nslot u
unfolding free_indirect
free_indirect-Freed ip s ip' t v num cut f =
    let slots = slot ip s in
    let blk = iblock ip.inum s in
    let root : ip'.addrs ndirect ≡ ip.addrs ndirect = cut ndirect in
    elim (Bool-cases (ip.addrs ndirect == 0)) [
      | inl e ↦ (
        ip',
        t,
        rw (free_indirect, root, e) refl,
        num,
        λ j l. ground (arith, cut j, l, e),
        Freed-skips 129 slots s ndirect t (λ j a b. ground (arith, a, b, e)) f,
      )
      | inr e ↦
          let there : slots indirect ≢ 0 = λ z. ground (arith, e, z) in
          let same : t.block (ip.addrs ndirect) ≡ s.block (ip.addrs ndirect) =
            f.others (ip.addrs ndirect)
              (v.placed.content indirect (omega arith) there).not_bitmap in
          let (u, q, g) =
            free_entries-Freed slots s blk v.placed nindirect 0 (s.block (ip.addrs ndirect)) t
              (omega arith) (λ k l. ground (arith, l, e)) f in
          let (run, h) = Freed-next slots s blk v.placed indirect u (omega arith) there g in
          (
            record ip' { addrs = store ip'.addrs ndirect 0 },
            cleared (slots indirect) u,
            free_indirect_runs ip' (ip.addrs ndirect) (s.block (ip.addrs ndirect)) t u
                (cleared (slots indirect) u) root e same q run,
            num,
            λ j l. cleared_root ip'.addrs j (λ m. ground (arith, cut j, m)) l,
            h,
          )
    ]

iupdate_size : (ip : Inode) (s : Fs) → (iupdate ip s).size ≡ s.size
unfolding iupdate logged
iupdate_size ip s = refl

-- What is left when all blocks were freed and the inode written.
emptied :
    (ip : Inode) (s : Fs) (cut : Inode) (u : Fs)
    → IsSound ip s
    → Freed (slot ip s) s nslot u
    → cut.inum ≡ ip.inum
    → cut.size ≡ 0
    → ((j : ℕ) → j < 13 → cut.addrs j ≡ 0)
    → IsFile cut (iupdate cut u)
      × ((k : ℕ) → k < nslot → slot cut (iupdate cut u) k ≡ 0)
      × ((iupdate cut u).size ≡ s.size)
      × ((i : ℕ)
          → i < s.size
          → used (iupdate cut u) i ≡ (used s i && not (has_block (slot ip s) nslot i)))
emptied ip s cut u v f num size clear =
    let w : IsSound cut u = empty-IsSound ip s v u f cut num clear in
    (
      record {
        sound = iupdate-IsSound cut u w;
        dense = λ o l. absurd (omega (arith, l, size));
        bounded = omega (arith, size);
      },
      λ k l. ground (arith, l, clear k, clear 12 (omega arith)),
      iupdate_size cut u ∙ f.sizes,
      λ i l. iupdate-used cut u w i (rw f.sizes l) ∙ f.bits i l,
    )

-- `itrunc` of a file does not panic: it frees the blocks of the file and no others, and leaves a file
-- of size 0 without blocks, in a file system of the same size.
pub itrunc-Freed :
    (ip : Inode) (s : Fs)
    → IsSound ip s
    → (cut : Inode) × (t : Fs) × (itrunc ip s ≡ done (cut, t))
      × (cut.size ≡ 0)
      × IsFile cut t
      × ((k : ℕ) → k < nslot → slot cut t k ≡ 0)
      × (t.size ≡ s.size)
      × ((i : ℕ) → i < s.size → used t i ≡ (used s i && not (has_block (slot ip s) nslot i)))
unfolding itrunc
itrunc-Freed ip s v =
    let (ip1, t, q, (num, low), f) =
      free_direct-Freed (slot ip s) s (iblock ip.inum s) v.placed ndirect 0 ip s (omega arith)
        (λ j a b. ground (arith, b)) (Freed-none (slot ip s) s) in
    let (ip2, u, r, num2, clear, g) =
      free_indirect-Freed ip s ip1 t v num (λ j. low j ∙ ground arith) f in
    let cut : Inode = record ip2 { size = 0 } in
    let (file, gone, sizes, bits) = emptied ip s cut u v g num2 refl clear in
    (cut, iupdate cut u, rw (itrunc, q, r) refl, refl, file, gone, sizes, bits)
