-- ===== src/Icache/Last.antt =====
-- `iput` (fs.c) of the last reference to an inode that has no links.
use ele.Inode.Trunc.{itrunc_inum, itrunc}
use ele.Fs.{Fs}
use ele.Base.{
  Bool-cases, inl, inr, subst, ◌<◌, ==_iff, store_ne, decrement, ap, store, false, ◌==◌, ◌≡◌, ℕ,
  refl, ◌∙◌, true, ◌&&◌, not, arith, done, panic, pos, load_short, store_self, eq_ℤ,
}
use ele.Icache.Counts.{IsCounted}
use ele.Icache.{Entry, ninode, is_inode, Icache, iput, iput_free, iput_drop, set_entry, Fs, itrunc}
use ele.Inode.{Inode, iupdate, iblock, dinode_at, read_inode}
use ele.Inode.Slots.{slot, nslot, IsSound}
use ele.Inode.Truncated.{itrunc-Freed, iupdate-used}
use ele.Inode.Freed.{has_block}
use ele.Inode.Disk.{on_disk, block_iupdate}
use ele.Inode.Stored.{stored_type}
use ele.Fs.Bitmap.{used}

typed-IsSound : (ip : Inode) (s : Fs) (n : ℕ) → IsSound ip s → IsSound (record ip { type = n }) s
typed-IsSound ip s n v = record {
  reserved = v.reserved;
  boot_used = v.boot_used;
  inodes_used = v.inodes_used;
  inodes_apart = v.inodes_apart;
  small = v.small;
  placed = v.placed;
}

-- An inode that is written with type 0 is free on the disk.
iupdate-free :
    (inum : ℕ) (ip : Inode) (s : Fs)
    → ip.inum ≡ inum
    → ip.type ≡ 0
    → read_inode inum (iupdate ip s) ≡ panic
unfolding read_inode
iupdate-free inum ip s n z =
    let m = s.block (iblock ip.inum s) in
    let free : (on_disk ip.inum (iupdate ip s)).type ≡ 0 =
      ap (λ b. load_short b (dinode_at ip.inum)) (block_iupdate ip s)
      ∙ stored_type (dinode_at ip.inum) ip m (omega (arith, z))
      ∙ z in
    let test : ((on_disk ip.inum (iupdate ip s)).type == 0) ≡ true = ground (arith, free) in
    subst (λ j. read_inode j (iupdate ip s) ≡ panic) n (rw (read_inode, test) refl)

-- What `iput` leaves of the table.
abbrev dropped : ℕ → Icache → (cut : Inode) → (t : Fs) → Icache
dropped k c cut t = iput_drop k (record {
  entry = store c.entry k (record (c.entry k) { valid = false; node = record cut { type = 0 } });
  fs = iupdate (record cut { type = 0 }) t;
})

iput_runs :
    (k : ℕ) (c : Icache) (cut : Inode) (t : Fs)
    → (c.entry k).valid ≡ true
    → (c.entry k).node.nlink ≡ 0
    → (c.entry k).ref ≡ pos 1
    → itrunc (c.entry k).node c.fs ≡ done (cut, t)
    → iput k c ≡ done (dropped k c cut t)
unfolding iput iput_free
iput_runs k c cut t v l r q =
    let test : ((c.entry k).valid && ((c.entry k).node.nlink == 0 && eq_ℤ (c.entry k).ref (pos 1)))
        ≡ true =
      ground (arith, v, l, r) in
    rw (iput, iput_free, test, q) refl

decrement_one : decrement (pos 1) ≡ pos 0
unfolding decrement
decrement_one = refl

dropped-entry :
    (k : ℕ) (c : Icache) (cut : Inode) (t : Fs)
    → (c.entry k).ref ≡ pos 1
    → (((dropped k c cut t).entry k).ref ≡ pos 0) × (((dropped k c cut t).entry k).valid ≡ false)
unfolding iput_drop set_entry
dropped-entry k c cut t r =
    let e : Entry = record (c.entry k) { valid = false; node = record cut { type = 0 } } in
    let mid = store_self c.entry k e in
    let last =
      store_self (store c.entry k e) k
        (record (store c.entry k e k) { ref = decrement (store c.entry k e k).ref }) in
    (
      ap (λ (x : Entry). x.ref) last
          ∙ ap (λ (x : Entry). decrement x.ref) mid
          ∙ ap decrement r
          ∙ decrement_one,
      ap (λ (x : Entry). x.valid) last ∙ ap (λ (x : Entry). x.valid) mid,
    )

dropped-fs :
    (k : ℕ) (c : Icache) (cut : Inode) (t : Fs)
    → (dropped k c cut t).fs ≡ iupdate (record cut { type = 0 }) t
unfolding iput_drop set_entry
dropped-fs k c cut t = refl

-- No entry but `k` has its inode, so that none has when `k` has no references.
dropped-absent :
    (k : ℕ) (c : Icache) (held : ℕ → ℕ) (cut : Inode) (t : Fs)
    → IsCounted c.entry held
    → k < ninode
    → (c.entry k).ref ≡ pos 1
    → (j : ℕ) → j < ninode
    → is_inode (c.entry k).dev (c.entry k).node.inum ((dropped k c cut t).entry j) ≡ false
unfolding iput_drop set_entry
dropped-absent k c held cut t a l r j m = elim (Bool-cases (k == j)) [
  | inl e ↦
      let same : k ≡ j = (==_iff k j).0 e in
      subst
        (λ i. is_inode (c.entry k).dev (c.entry k).node.inum ((dropped k c cut t).entry i) ≡ false)
        same (ground (arith, (dropped-entry k c cut t r).0))
  | inr e ↦
      let old : Entry = record (c.entry k) { valid = false; node = record cut { type = 0 } } in
      let mid = store c.entry k old in
      let kept : (dropped k c cut t).entry j ≡ c.entry j =
        store_ne mid k (record (mid k) { ref = decrement (mid k).ref }) j e
        ∙ store_ne c.entry k old j e in
      elim (Bool-cases (is_inode (c.entry k).dev (c.entry k).node.inum (c.entry j))) [
        | inr f ↦ ap (is_inode (c.entry k).dev (c.entry k).node.inum) kept ∙ f
        | inl f ↦
            let mine : 0 < held k = ground (arith, a.counts k l, r) in
            let theirs : 0 < held j = ground (arith, f, a.counts j m) in
            let same : k ≡ j =
              a.unique k j l m mine theirs (ground (arith, f)) (ground (arith, f)) in
            absurd (ground (arith, e, same))
      ]
]

-- Where the references are counted and no inode has two entries, `iput` of the last reference to an
-- inode that is valid and has no links: no entry with references is that inode any more, its blocks
-- are free and no others, and on the disk it is free, so that `ilock` would panic.
pub iput-last :
    (k : ℕ) (c : Icache) (held : ℕ → ℕ)
    → IsCounted c.entry held
    → k < ninode
    → (c.entry k).valid ≡ true
    → (c.entry k).node.nlink ≡ 0
    → (c.entry k).ref ≡ pos 1
    → IsSound (c.entry k).node c.fs
    → (d : Icache) × (iput k c ≡ done d)
      × ((d.entry k).ref ≡ pos 0)
      × ((d.entry k).valid ≡ false)
      × ((j : ℕ) → j < ninode → is_inode (c.entry k).dev (c.entry k).node.inum (d.entry j) ≡ false)
      × (read_inode (c.entry k).node.inum d.fs ≡ panic)
      × ((i : ℕ)
          → i < c.fs.size
          → used d.fs i ≡ (used c.fs i && not (has_block (slot (c.entry k).node c.fs) nslot i)))
iput-last k c held a l v n r sound =
    let ip = (c.entry k).node in
    let (cut, t, q, size, file, gone, same, bits) = itrunc-Freed ip c.fs sound in
    let d = dropped k c cut t in
    let f = dropped-fs k c cut t in
    let (refs, old) = dropped-entry k c cut t r in
    (
      d,
      iput_runs k c cut t v n r q,
      refs,
      old,
      dropped-absent k c held cut t a l r,
      rw f (iupdate-free ip.inum (record cut { type = 0 }) t (itrunc_inum ip cut c.fs t q) refl),
      λ i m.
          rw f (
            iupdate-used (record cut { type = 0 }) t (typed-IsSound cut t 0 file.sound) i
              (rw same m))
          ∙ bits i m,
    )
