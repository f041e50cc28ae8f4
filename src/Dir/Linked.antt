-- ===== src/Dir/Linked.antt =====
-- `dirlookup` after `dirlink` (fs.c).
use ele.Inode.Disk.{load_short-congr}
use ele.Base.{
  ℕ, ◌+◌, ◌-◌, ◌%◌, ◌≤◌, ◌<◌, ◌≡◌, refl, sym, ap, ap₂, ◌∙◌, subst, ◌≢◌, inl, inr, Bool, true, false,
  ◌&&◌, not, arith, ltb, leb, ◌==◌, if◌then◌else◌, Bool-cases, pos, eq_ℤ, ==_iff, load_short,
  store_self, panic, ◌⊎◌, done,
}
use ele.Dir.{dirlookup, dirent_size, put_entry, namecmp, dirlink}
use ele.Dir.Lookup.{IsDirectory, dirent_at, hit, dirlookup_hits, found_at, found_num, beside-congr}
use ele.Inode.{max_size}
use ele.Dir.Link.{
  linked, written-name, written-number, empty_loop-ends, dirlink_panics, dirlink_returns,
}
use ele.Icache.{Icache, Entry}
use ele.Inode.{Inode}
use ele.Inode.Write.{IsFile, Overwritten, writei-Overwritten}
use ele.Inode.Content.{byte}
use ele.Strings.{Bytes, strncmp}
use ele.Fs.{Fs}
use ele.Fs.Free.{free}
use ele.Dir.Named.{Named, absent_hit}

hit-congr :
    (name e e' : Bytes)
    → ((x : ℕ) → x < dirent_size → e x ≡ e' x)
    → (not (load_short e 0 == 0) && eq_ℤ (namecmp name e) (pos 0))
      ≡ (not (load_short e' 0 == 0) && eq_ℤ (namecmp name e') (pos 0))
hit-congr name e e' same =
    ap₂ (λ n r. not (n == 0) && eq_ℤ r (pos 0))
      (load_short-congr e e' 0 (λ x a b. same x (omega (arith, b))))
      (ap (strncmp dirent_size 2 14) (beside-congr e e' name same))

-- The directory after an entry was written at `o`.
module _ (dp o inum : ℕ) (name de : Bytes) (c : Icache) (ip : Inode) (t : Fs) (i : IsDirectory dp c)
    (within : o ≤ (c.entry dp).node.size) (aligned : o % dirent_size ≡ 0) (file : IsFile ip t)
    (kind : ip.type ≡ (c.entry dp).node.type)
    (size : ip.size ≡ (
      if ltb (c.entry dp).node.size (o + dirent_size)
      then o + dirent_size
      else (c.entry dp).node.size))
    (bytes : Overwritten o dirent_size (put_entry name de inum) (c.entry dp).node c.fs ip t) where
  node : ((linked dp c ip t).entry dp).node ≡ ip
  node = ap (λ (e : Entry). e.node) (store_self c.entry dp (record (c.entry dp) { node = ip }))

  linked-IsDirectory : IsDirectory dp (linked dp c ip t)
  linked-IsDirectory = record {
    file = subst (λ n. IsFile n t) (sym node) file;
    typed = ap (λ (n : Inode). n.type) node ∙ kind ∙ i.typed;
    entries =
        ap (λ (n : Inode). n.size % dirent_size) node ∙ ground (arith, size, i.entries, aligned);
  }

  linked-size : ((linked dp c ip t).entry dp).node.size ≡ (
      if ltb (c.entry dp).node.size (o + dirent_size)
      then o + dirent_size
      else (c.entry dp).node.size)
  linked-size = ap (λ (n : Inode). n.size) node ∙ size

  linked-entry :
      (x : ℕ) → x < dirent_size → dirent_at dp o (linked dp c ip t) x ≡ put_entry name de inum x
  linked-entry x l =
      let here : o + x - o ≡ x = omega arith in
      let inside : (leb o (o + x) && ltb (o + x) (o + dirent_size)) ≡ true = ground (arith, l) in
      ap (λ n. byte n t (o + x)) node
      ∙ bytes (o + x) (ground (arith, size, l))
      ∙ rw inside (ap (put_entry name de inum) here)

  linked-others :
      (p : ℕ)
      → p < (c.entry dp).node.size
      → p % dirent_size ≡ 0
      → p ≢ o
      → (x : ℕ) → x < dirent_size
      → dirent_at dp p (linked dp c ip t) x ≡ dirent_at dp p c x
  linked-others p l a ne x m =
      let outside : (leb o (p + x) && ltb (p + x) (o + dirent_size)) ≡ false =
        ground (arith, a, aligned, m, ne) in
      ap (λ n. byte n t (p + x)) node
      ∙ bytes (p + x) (ground (arith, size, l, m, a, i.entries))
      ∙ rw outside refl

  -- No other entry has the name, when none had it before.
  only-hit :
      ((p : ℕ) → p < (c.entry dp).node.size → p % dirent_size ≡ 0 → hit dp name c p ≡ false)
      → (p : ℕ) → p < ((linked dp c ip t).entry dp).node.size
      → p % dirent_size ≡ 0
      → hit dp name (linked dp c ip t) p ≡ true
      → p ≡ o
  only-hit absent p l a h = elim (Bool-cases (p == o)) [
    | inl e ↦ (==_iff p o).0 e
    | inr e ↦
        let old : p < (c.entry dp).node.size =
          ground (arith, l, linked-size, e, a, aligned, within, i.entries) in
        let same =
          hit-congr name (dirent_at dp p (linked dp c ip t)) (dirent_at dp p c)
            (linked-others p old a (λ q. ground (arith, e, q))) in
        absurd (cc (sym same ∙ h, absent p old a))
  ]

  linked-hit : 0 < inum → inum < 65536 → hit dp name (linked dp c ip t) o ≡ true
  linked-hit positive small =
      let e = dirent_at dp o (linked dp c ip t) in
      ap₂ (λ n r. not (n == 0) && eq_ℤ r (pos 0)) (written-number name de e inum linked-entry small)
        (written-name name de e inum linked-entry)
      ∙ ground (arith, positive)

  linked-dirlookup :
      (devsw : ℕ → Bool) (de' : Bytes)
      → 0 < inum
      → inum < 65536
      → ((p : ℕ) → p < (c.entry dp).node.size → p % dirent_size ≡ 0 → hit dp name c p ≡ false)
      → dirlookup devsw dp name de' (linked dp c ip t) ≡ found_num dp (linked dp c ip t) o inum
  linked-dirlookup devsw de' positive small absent =
      let d = linked dp c ip t in
      let found = linked-hit positive small in
      elim (dirlookup_hits devsw dp name de' d linked-IsDirectory) [
        | inl (nothing, q) ↦
            absurd
              (cc (nothing o (omega arith) (ground (arith, linked-size, within)) aligned, found))
        | inr (p, l, m, a, h, before, q) ↦
            q
            ∙ ap (found_at dp d) (only-hit absent p m a h)
            ∙ ap (found_num dp d o)
                (written-number name de (dirent_at dp o d) inum linked-entry small)
      ]

-- `dirlink` of a number from 1 to 65535 and a name that no entry in use of the directory has, where
-- the directory may grow by an entry: it returns 0, after which `dirlookup` finds the number for
-- the name. It has then used the entry at some offset, which was behind the last one or not in use,
-- and the others are as before. It can panic only on a disk with at most one free block.
pub dirlink-dirlookup :
    (devsw : ℕ → Bool) (dp inum : ℕ) (name de de' : Bytes) (c : Icache)
    → IsDirectory dp c
    → (c.entry dp).node.size + dirent_size ≤ max_size
    → 0 < inum
    → inum < 65536
    → ((p : ℕ) → p < (c.entry dp).node.size → p % dirent_size ≡ 0 → ¬ Named dp name c p)
    → ((dirlink devsw dp name de inum c ≡ panic) × (free c.fs < 2))
      ⊎ ((o : ℕ) × (d : Icache) × (dirlink devsw dp name de inum c ≡ done (true, d))
          × IsDirectory dp d
          × (dirlookup devsw dp name de' d ≡ found_num dp d o inum)
          × (o < (c.entry dp).node.size → load_short (dirent_at dp o c) 0 ≡ 0)
          × ((p : ℕ)
              → p < (c.entry dp).node.size
              → p % dirent_size ≡ 0
              → p ≢ o
              → (x : ℕ) → x < dirent_size
              → dirent_at dp p d x ≡ dirent_at dp p c x))
dirlink-dirlookup devsw dp inum name de de' c i room positive small absent_name =
    let absent : (p : ℕ)
        → p < (c.entry dp).node.size
        → p % dirent_size ≡ 0
        → hit dp name c p ≡ false =
      λ p l a. absent_hit dp name c p (absent_name p l a) in
    let ip = (c.entry dp).node in
    let (o, de2, ends, aligned, within, unused) =
      empty_loop-ends devsw (ip.size + 1) 0 dp de c i (omega arith) (omega arith) (omega arith) in
    elim (dirlookup_hits devsw dp name de c i) [
      | inr (p, l, m, a, h, before, q) ↦ absurd (cc (h, absent p m a))
      | inl (nothing, q) ↦
          elim (writei-Overwritten devsw o dirent_size (put_entry name de2 inum) ip c.fs i.file
            (λ e. ground (arith, e, i.typed)) within (omega (arith, within, room))) [
              | inl (w, full) ↦ inl (
                dirlink_panics devsw dp o inum name de de2 c q ends w,
                ground (arith, full, aligned),
              )
              | inr (ip', t, w, file, kind, size, bytes) ↦ inr (
                o,
                linked dp c ip' t,
                dirlink_returns devsw dp o inum name de de2 c ip' t q ends w,
                linked-IsDirectory dp o inum name de2 c ip' t i within aligned file kind size bytes,
                linked-dirlookup dp o inum name de2 c ip' t i within aligned file kind size bytes
                    devsw de' positive small absent,
                unused,
                linked-others dp o inum name de2 c ip' t i within aligned file kind size bytes,
              )
            ]
    ]
