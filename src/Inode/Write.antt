-- ===== src/Inode/Write.antt =====
-- `writei` (fs.c): the content after a write.
use ele.Inode.Loop.{writei_loop-Wrote, pieces}
use ele.Fs.Free.{free}
use ele.Inode.{
  Inode, max_size, iblock, iupdate, put_dinode, dinode_at, writei, t_dev, moved, end_of,
}
use ele.Strings.{Bytes}
use ele.Base.{
  refl, ℕ, ◌*◌, ◌+◌, ◌-◌, ◌/◌, ◌%◌, ◌≤◌, ◌<◌, ◌≡◌, sym, ap, ◌∙◌, ◌≢◌, inl, inr, false, ◌&&◌, arith,
  ltb, leb, ◌==◌, if◌then◌else◌, Bool-cases, store_ne, true, Bool, panic, ◌⊎◌, done, ◌||◌,
}
use ele.Fs.{logged, Fs, bsize}
use ele.Inode.Slots.{slot, indirect, nslot, IsSound}
use ele.Inode.Content.{byte, logged-IsSound, logged_slots}
use ele.Inode.Wrote.{Wrote}

-- A file: its blocks are sound, each byte below the size has one, and the size is within bounds.
pub record IsFile (ip : Inode) (s : Fs) : Type 0 where
  pub sound : IsSound ip s
  pub dense : (o : ℕ) → o < ip.size → slot ip s (o / bsize) ≢ 0
  pub bounded : ip.size ≤ max_size

-- The inode's own block is none of the content.
module _ (ip : Inode) (s : Fs) (v : IsSound ip s) where
  iblock_apart : (j : ℕ) → j < nslot → slot ip s j ≢ 0 → (iblock ip.inum s == slot ip s j) ≡ false
  iblock_apart j l ne = ground (arith, (v.placed.content j l ne).not_inodes)

  pub iupdate-IsSound : IsSound ip (iupdate ip s)
  unfolding iupdate
  iupdate-IsSound =
      logged-IsSound ip s v (iblock ip.inum s)
        (put_dinode (dinode_at ip.inum) ip (s.block (iblock ip.inum s)))
        (iblock_apart indirect (omega arith)) v.inodes_apart

  pub iupdate-slots : (j : ℕ) → j < nslot → slot ip (iupdate ip s) j ≡ slot ip s j
  unfolding iupdate
  iupdate-slots =
      logged_slots ip s v (iblock ip.inum s)
        (put_dinode (dinode_at ip.inum) ip (s.block (iblock ip.inum s)))
        (iblock_apart indirect (omega arith))

  pub iupdate-byte :
      (o : ℕ) → o < max_size → slot ip s (o / bsize) ≢ 0 → byte ip (iupdate ip s) o ≡ byte ip s o
  unfolding iupdate logged
  iupdate-byte o l ne =
      let j = o / bsize in
      let k : j < nslot = omega (arith, l) in
      ap (λ x. (iupdate ip s).block x (o % bsize)) (iupdate-slots j k)
      ∙ ap (λ f. f (o % bsize))
          (store_ne s.block (iblock ip.inum s) _ (slot ip s j) (iblock_apart j k ne))

-- A sound inode with another size.
sized-IsSound : (ip : Inode) (s : Fs) (n : ℕ) → IsSound ip s → IsSound (record ip { size = n }) s
sized-IsSound ip s n v = record {
  reserved = v.reserved;
  boot_used = v.boot_used;
  inodes_used = v.inodes_used;
  inodes_apart = v.inodes_apart;
  small = v.small;
  placed = v.placed;
}

-- The content after `n` bytes of `src` were written at `off`.
abbrev pub Overwritten : (off n : ℕ) → Bytes → (ip : Inode) (s : Fs) (ip' : Inode) (t : Fs) → Type 0
Overwritten off n src ip s ip' t =
    (o : ℕ)
    → o < ip'.size
    → byte ip' t o ≡ (if leb off o && ltb o (off + n) then src (o - off) else byte ip s o)

Wrote-Overwritten :
    (off n : ℕ) (src : Bytes) (ip : Inode) (s : Fs) (ip' : Inode) (t : Fs)
    → IsFile ip s
    → off ≤ ip.size
    → off + n ≤ max_size
    → Wrote off (off + n) (λ o. src (o - off)) ip s ip' t
    → (o : ℕ) → o < (if ltb ip.size (off + n) then off + n else ip.size)
    → (slot ip' t (o / bsize) ≢ 0)
      × (byte ip' t o ≡ (if leb off o && ltb o (off + n) then src (o - off) else byte ip s o))
Wrote-Overwritten off n src ip s ip' t f l top w o h =
    elim (Bool-cases (leb off o && ltb o (off + n))) [
      | inl e ↦
          let low : off ≤ o = ground (arith, e) in
          let high : o < off + n = ground (arith, e) in
          (w.mapped o low high, rw e (w.written o low high))
      | inr e ↦
          let old : o < ip.size = ground (arith, e, h, l) in
          let ne = f.dense o old in
          let k : o < max_size = omega (arith, old, f.bounded) in
          (
            (λ z. ne (sym (w.slots (o / bsize) (omega (arith, k)) ne) ∙ z)),
            rw e (w.others o k (ground (arith, e)) ne),
          )
    ]

-- What follows the loop.
finish-IsFile :
    (off n : ℕ) (src : Bytes) (ip : Inode) (s : Fs) (ip' : Inode) (t : Fs)
    → IsFile ip s
    → off ≤ ip.size
    → off + n ≤ max_size
    → Wrote off (off + n) (λ o. src (o - off)) ip s ip' t
    → (ip'.size ≡ ip.size)
      × (ltb ip.size (off + n) ≡ false → IsFile ip' t × Overwritten off n src ip s ip' t)
      × (ltb ip.size (off + n) ≡ true
          → IsFile (record ip' { size = off + n }) (iupdate (record ip' { size = off + n }) t)
            × Overwritten off n src ip s
                (record ip' { size = off + n })
                (iupdate (record ip' { size = off + n }) t))
finish-IsFile off n src ip s ip' t f l top w =
    let size : ip'.size ≡ ip.size = ap (λ (x : Inode). x.size) w.fields in
    let all = Wrote-Overwritten off n src ip s ip' t f l top w in
    let grown : Inode = record ip' { size = off + n } in
    let v = sized-IsSound ip' t (off + n) w.sound in
    (
      size,
      λ e.
          let below = λ (o : ℕ) (h : o < ip'.size). all o (rw e (rw size at h)) in
          (
            record { sound = w.sound; dense = λ o h. (below o h).0; bounded = rw size f.bounded },
            λ o h. (below o h).1,
          ),
      λ e.
          let below = λ (o : ℕ) (h : o < off + n). all o (rw e h) in
          (
            record {
              sound = iupdate-IsSound grown t v;
              dense = λ o h z.
                  (below o h).0
                    (sym (iupdate-slots grown t v (o / bsize) (omega (arith, h, top))) ∙ z);
              bounded = top;
            },
            λ o h. iupdate-byte grown t v o (omega (arith, h, top)) (below o h).0 ∙ (below o h).1,
          ),
    )

-- A write within the size of a file, or just behind its end, that does not make it too large: `writei`
-- returns `n`, the file keeps its type and is as large as before or ends where the write ended, and its
-- bytes are those of `src` where they were written and the old ones elsewhere. It can panic only on a
-- disk with less than two free blocks for each block of the file that the write is in.
pub writei-Overwritten :
    (devsw : ℕ → Bool) (off n : ℕ) (src : Bytes) (ip : Inode) (s : Fs)
    → IsFile ip s
    → ip.type ≢ t_dev
    → off ≤ ip.size
    → off + n ≤ max_size
    → ((writei devsw ip src off n s ≡ panic) × (free s < 2 * pieces off n))
      ⊎ ((ip' : Inode) × (t : Fs) × (writei devsw ip src off n s ≡ done (moved n, ip', t))
          × IsFile ip' t
          × (ip'.type ≡ ip.type)
          × (ip'.size ≡ (if ltb ip.size (off + n) then off + n else ip.size))
          × Overwritten off n src ip s ip' t)
unfolding writei
writei-Overwritten devsw off n src ip s f file l top =
    let start : off + 0 ≡ off = omega arith in
    let whole : n - 0 ≡ n = omega arith in
    let c1 : (ip.type == t_dev) ≡ false = ground (arith, file) in
    let c2 : (ltb ip.size off || ltb (end_of off n) off) ≡ false = ground (arith, l, top) in
    let c3 : ltb max_size (end_of off n) ≡ false = ground (arith, top) in
    elim (rw start at
      (writei_loop-Wrote (n + 1) 0 off n src ip s f.sound (omega arith) (omega arith) top)) [
        | inl (q, full) ↦ inl (rw (writei, c1, c2, c3, q) refl, rw whole at full)
        | inr (ip', t, q, w) ↦
            let (size, same, larger) = finish-IsFile off n src ip s ip' t f l top w in
            let kind : ip'.type ≡ ip.type = ap (λ (x : Inode). x.type) w.fields in
            elim (Bool-cases (ltb ip.size (off + n))) [
              | inl e ↦
                  let test : (ltb 0 n && ltb ip'.size (off + n)) ≡ true =
                    ground (arith, size, e, l) in
                  let (g, o) = larger e in
                  inr (_, _, rw (writei, c1, c2, c3, q, test) refl, g, kind, rw e refl, o)
              | inr e ↦
                  let test : (ltb 0 n && ltb ip'.size (off + n)) ≡ false =
                    ground (arith, size, e) in
                  let (g, o) = same e in
                  inr (_, _, rw (writei, c1, c2, c3, q, test) refl, g, kind, size ∙ rw e refl, o)
            ]
      ]
