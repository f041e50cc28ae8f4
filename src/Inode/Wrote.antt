-- ===== src/Inode/Wrote.antt =====
-- What a part of `writei` (fs.c) does to the content of an inode.
use ele.Fs.{Fs, bsize}
use ele.Inode.{Inode, Fs, max_size}
use ele.Base.{
  ℕ, ◌/◌, ◌≤◌, ◌<◌, ◌≡◌, refl, sym, ap, ◌∙◌, ◌≢◌, ◌⊎◌, inl, inr, arith, ltb, Bool-cases, ltb→lt,
}
use ele.Inode.Slots.{slot, indirect, IsSound}
use ele.Inode.Content.{byte}

-- The bytes from `lo` to `hi` are those of `value` now, and the others that were there stay.
pub record Wrote (lo hi : ℕ) (value : ℕ → ℕ) (ip : Inode) (s : Fs) (ip' : Inode) (t : Fs)
    : Type 0 where
  pub sound : IsSound ip' t
  pub fields : ip' ≡ record ip { addrs = ip'.addrs }
  pub sizes : t.size ≡ s.size
  pub starts : t.bmapstart ≡ s.bmapstart
  pub inodes : t.inodestart ≡ s.inodestart
  pub slots : (j : ℕ) → j < indirect → slot ip s j ≢ 0 → slot ip' t j ≡ slot ip s j
  pub mapped : (o : ℕ) → lo ≤ o → o < hi → slot ip' t (o / bsize) ≢ 0
  pub written : (o : ℕ) → lo ≤ o → o < hi → byte ip' t o ≡ value o
  pub others :
      (o : ℕ)
      → o < max_size
      → (o < lo) ⊎ (hi ≤ o)
      → slot ip s (o / bsize) ≢ 0
      → byte ip' t o ≡ byte ip s o

-- Nothing written.
pub none-Wrote :
    (lo : ℕ) (value : ℕ → ℕ) (ip : Inode) (s : Fs) → IsSound ip s → Wrote lo lo value ip s ip s
none-Wrote lo value ip s v = record {
  sound = v;
  fields = refl;
  sizes = refl;
  starts = refl;
  inodes = refl;
  slots = λ j l ne. refl;
  mapped = λ o l h. absurd (omega (arith, l, h));
  written = λ o l h. absurd (omega (arith, l, h));
  others = λ o l h ne. refl;
}

-- One part after another.
pub then-Wrote :
    (lo mid hi : ℕ) (value : ℕ → ℕ) (ip : Inode) (s : Fs) (ip' : Inode) (t : Fs) (ip'' : Inode)
    (u : Fs)
    → lo ≤ mid
    → mid ≤ hi
    → hi ≤ max_size
    → Wrote lo mid value ip s ip' t
    → Wrote mid hi value ip' t ip'' u
    → Wrote lo hi value ip s ip'' u
then-Wrote lo mid hi value ip s ip' t ip'' u l k m a b =
    let low = λ (o : ℕ) (p : o < mid) (q : lo ≤ o).
      b.slots (o / bsize) (omega (arith, p, k, m)) (a.mapped o q p) in
    record {
      sound = b.sound;
      fields = b.fields ∙ ap (λ (x : Inode). record x { addrs = ip''.addrs }) a.fields;
      sizes = b.sizes ∙ a.sizes;
      starts = b.starts ∙ a.starts;
      inodes = b.inodes ∙ a.inodes;
      slots = λ j lj ne. b.slots j lj (λ z. ne (sym (a.slots j lj ne) ∙ z)) ∙ a.slots j lj ne;
      mapped = λ o p q. elim (Bool-cases (ltb o mid)) [
        | inl e ↦ λ z. a.mapped o p (ltb→lt o mid e) (sym (low o (ltb→lt o mid e) p) ∙ z)
        | inr e ↦ b.mapped o (ground (arith, e)) q
      ];
      written = λ o p q. elim (Bool-cases (ltb o mid)) [
        | inl e ↦
            let before = ltb→lt o mid e in
            b.others o (omega (arith, q, m)) (inl before) (a.mapped o p before)
            ∙ a.written o p before
        | inr e ↦ b.written o (ground (arith, e)) q
      ];
      others = λ o p q ne.
          let same = a.slots (o / bsize) (omega (arith, p)) ne in
          b.others o p (ground (arith, q, l, k)) (λ z. ne (sym same ∙ z))
          ∙ a.others o p (ground (arith, q, l, k)) ne;
    }
