-- ===== src/Icache/Holders.antt =====
-- The table of inodes (fs.c) under any calls of those who hold references.
use ele.Inode.Trunc.{itrunc, itrunc_inum}
use ele.Fs.{Fs}
use ele.Inode.{Inode, read_inode, get_dinode, dinode_at, iblock}
use ele.Base.{
  ℕ, ◌+◌, ◌-◌, ◌<◌, ◌≡◌, refl, sym, ap, ◌∙◌, subst, inl, inr, arith, done, pos, store, increment,
  decrement, Bool-cases, ◌&&◌, ltb_ℤ, ◌==◌, >>=-eq-done, eq_ℤ, true, false, suc,
}
use ele.Icache.{
  Icache, iget, idup, ilock, iput_free, iput_drop, ninode, recycled, set_entry, Inode, Fs,
  read_inode, itrunc, is_inode,
}
use ele.Icache.Counts.{IsCounted, IsCounted-store, IsCounted-recycled, IsCounted-same}
use ele.Icache.Find.{iget-Gets}

-- The table, and how many references to each entry are held.
pub record System : Type 0 where
  pub cache : Icache
  pub held : ℕ → ℕ

-- A call; one with an entry is made by a holder of it. `edits` stands for what a holder does to the
-- inode and to the blocks: `readi`, `writei`, and changes of the fields.
pub data Turn (s : System) : System → Type 0 where
  gets :
      {c : Icache} (dev inum k : ℕ)
      → iget dev inum s.cache ≡ done (k, c)
      → Turn s (record { cache = c; held = store s.held k (s.held k + 1) })
  dups :
      (k : ℕ)
      → k < ninode
      → 0 < s.held k
      → Turn s (record { cache = idup k s.cache; held = store s.held k (s.held k + 1) })
  locks :
      {c : Icache} (k : ℕ)
      → k < ninode
      → 0 < s.held k
      → ilock k s.cache ≡ done c
      → Turn s (record s { cache = c })
  edits :
      (k : ℕ) (node : Inode) (fs : Fs)
      → k < ninode
      → 0 < s.held k
      → node.inum ≡ (s.cache.entry k).node.inum
      → Turn s (record s {
        cache = record {
          entry = store s.cache.entry k (record (s.cache.entry k) { node = node });
          fs = fs;
        };
      })
  frees :
      {c : Icache} (k : ℕ)
      → k < ninode
      → 0 < s.held k
      → iput_free k s.cache ≡ done c
      → Turn s (record s { cache = c })
  drops :
      (k : ℕ)
      → k < ninode
      → 0 < s.held k
      → Turn s (record { cache = iput_drop k s.cache; held = store s.held k (s.held k - 1) })

pub data Turns (s : System) : System → Type 0 where
  here : Turns s s
  next : {t u : System} → Turns s t → Turn t u → Turns s u

iget-IsCounted :
    (dev inum k : ℕ) (s : System) (c : Icache)
    → iget dev inum s.cache ≡ done (k, c)
    → IsCounted s.cache.entry s.held
    → (k < ninode) × IsCounted c.entry (store s.held k (s.held k + 1))
unfolding idup set_entry increment
iget-IsCounted dev inum k s c q a =
    let old = s.cache in
    elim (iget-Gets dev inum old) [
      | inl (i, l, hit, r) ↦
          let same : i ≡ k = ground (arith, sym r ∙ q) in
          let new : idup i old ≡ c = ground (arith, sym r ∙ q) in
          let some_held : 0 < s.held i = ground (arith, hit, a.counts i l) in
          let after : IsCounted (idup i old).entry (store s.held i (s.held i + 1)) =
            IsCounted-store old.entry s.held i (s.held i + 1)
              (record (old.entry i) { ref = increment (old.entry i).ref }) some_held
              (ap increment (a.counts i l) ∙ ap pos (omega arith)) refl refl a in
          (subst (λ j. j < ninode) same l, rw (sym same, sym new) after)
      | inr (absent, inl (i, l, z, r)) ↦
          let same : i ≡ k = ground (arith, sym r ∙ q) in
          let new : set_entry i (recycled dev inum i old) old ≡ c = ground (arith, sym r ∙ q) in
          let after = IsCounted-recycled dev inum i old s.held l z absent a in
          (subst (λ j. j < ninode) same l, rw (sym same, sym new) after)
      | inr (absent, inr (full, r)) ↦ absurd (cc (q, r))
    ]

read_inode-inum : (inum : ℕ) (s : Fs) (ip : Inode) → read_inode inum s ≡ done ip → ip.inum ≡ inum
unfolding read_inode
read_inode-inum inum s ip h =
    elim (Bool-cases ((get_dinode inum (dinode_at inum) (s.block (iblock inum s))).type == 0)) [
      | inl e ↦ absurd (cc (rw (read_inode, e) at h))
      | inr e ↦ ground (arith, rw (read_inode, e) at h)
    ]

ilock-IsCounted :
    (k : ℕ) (c d : Icache) (held : ℕ → ℕ)
    → k < ninode
    → 0 < held k
    → ilock k c ≡ done d
    → IsCounted c.entry held
    → IsCounted d.entry held
unfolding ilock set_entry
ilock-IsCounted k c d held l some_held h a =
    let e = c.entry k in
    elim (Bool-cases (ltb_ℤ e.ref (pos 1))) [
      | inl t ↦ absurd (cc (rw (ilock, t) at h))
      | inr t ↦ elim (Bool-cases e.valid) [
        | inl v ↦ let same : c ≡ d = ground (arith, rw (ilock, t, v) at h) in rw (sym same) a
        | inr v ↦
            let (ip, q, r) = >>=-eq-done (read_inode e.node.inum c.fs) _ (rw (ilock, t, v) at h) in
            let new : store c.entry k (record e { valid = true; node = ip }) ≡ d.entry =
              ground (arith, r) in
            rw (sym new) (
              IsCounted-same c.entry held k (record e { valid = true; node = ip }) l some_held refl
                refl (read_inode-inum e.node.inum c.fs ip q) a)
      ]
    ]

iput_free-IsCounted :
    (k : ℕ) (c d : Icache) (held : ℕ → ℕ)
    → k < ninode
    → 0 < held k
    → iput_free k c ≡ done d
    → IsCounted c.entry held
    → IsCounted d.entry held
unfolding iput_free
iput_free-IsCounted k c d held l some_held h a =
    let e = c.entry k in
    elim (Bool-cases (e.valid && (e.node.nlink == 0 && eq_ℤ e.ref (pos 1)))) [
      | inr t ↦ let same : c ≡ d = ground (arith, rw (iput_free, t) at h) in rw (sym same) a
      | inl t ↦
          let (r, q, p) = >>=-eq-done (itrunc e.node c.fs) _ (rw (iput_free, t) at h) in
          let gone : Inode = record (r.0) { type = 0 } in
          let new : store c.entry k (record e { valid = false; node = gone }) ≡ d.entry =
            ground (arith, p) in
          rw (sym new) (
            IsCounted-same c.entry held k (record e { valid = false; node = gone }) l some_held refl
              refl (itrunc_inum e.node r.0 c.fs r.1 q) a)
    ]

Turn-IsCounted :
    {s t : System} → Turn s t → IsCounted s.cache.entry s.held → IsCounted t.cache.entry t.held
unfolding idup iput_drop set_entry increment decrement
Turn-IsCounted {s} {t} (gets dev inum k e) a = (iget-IsCounted dev inum k s _ e a).1
Turn-IsCounted {s} {t} (dups k l h) a =
    IsCounted-store s.cache.entry s.held k (s.held k + 1) _ h
      (ap increment (a.counts k l) ∙ ap pos (omega arith)) refl refl a
Turn-IsCounted {s} {t} (locks k l h e) a = ilock-IsCounted k s.cache _ s.held l h e a
Turn-IsCounted {s} {t} (edits k node fs l h n) a =
    IsCounted-same s.cache.entry s.held k (record (s.cache.entry k) { node = node }) l h refl refl n
      a
Turn-IsCounted {s} {t} (frees k l h e) a = iput_free-IsCounted k s.cache _ s.held l h e a
Turn-IsCounted {s} {t} (drops k l h) a =
    let one : s.held k ≡ suc (s.held k - 1) = omega (arith, h) in
    IsCounted-store s.cache.entry s.held k (s.held k - 1) _ h
      (ap decrement (a.counts k l ∙ ap pos one)) refl refl a

-- The table as boot leaves it.
abbrev pub IsZeroed : System → Type 0
IsZeroed s = (k : ℕ) → ((s.cache.entry k).ref ≡ pos 0) × (s.held k ≡ 0)

-- Whatever the holders do with a zeroed table: the references that an entry counts are those that are
-- held, and two entries that are held are never the same inode.
pub Turns-IsCounted : {s t : System} → IsZeroed s → Turns s t → IsCounted t.cache.entry t.held
Turns-IsCounted {s} {t} z here = record {
  counts = λ k l. (z k).0 ∙ ap pos (sym (z k).1);
  unique = λ j k lj lk h g p q. absurd (omega (arith, h, (z j).1));
}
Turns-IsCounted {s} {t} z (next r c) = Turn-IsCounted c (Turns-IsCounted z r)

-- Whatever the holders do with a zeroed table: `iget` for the inode of an entry that is held gives that
-- entry as it is, with one more reference.
pub Turns-iget :
    {s t : System} (k : ℕ)
    → IsZeroed s
    → Turns s t
    → k < ninode
    → 0 < t.held k
    → iget (t.cache.entry k).dev (t.cache.entry k).node.inum t.cache ≡ done (k, idup k t.cache)
Turns-iget {s} {t} k z r l h =
    let a = Turns-IsCounted z r in
    let c = t.cache in
    let hit : is_inode (c.entry k).dev (c.entry k).node.inum (c.entry k) ≡ true =
      ground (arith, a.counts k l, h) in
    elim (iget-Gets (c.entry k).dev (c.entry k).node.inum c) [
      | inr (absent, rest) ↦ absurd (cc (absent k l, hit))
      | inl (i, m, found, q) ↦
          let some_held : 0 < t.held i = ground (arith, found, a.counts i m) in
          let same : i ≡ k =
            a.unique i k m l some_held h (ground (arith, found)) (ground (arith, found)) in
          q ∙ ap (λ j. done (j, idup j c)) same
    ]
