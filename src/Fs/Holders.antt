-- ===== src/Fs/Holders.antt =====
-- The blocks of fs.c in use: they are allocated, written by those who hold them, and freed.
use ele.Strings.{Bytes}
use ele.Fs.{bblock, logged, Fs, balloc, Bytes, bfree, has_bit, bpb}
use ele.Base.{
  not, ◌&&◌, ◌<◌, ◌==◌, store_ne, ℕ, ◌+◌, ◌/◌, ◌%◌, ◌≡◌, sym, ap, ◌∙◌, subst, ◌≢◌, inl, inr, Bool,
  true, false, arith, Bool-cases, done, store, ==_iff,
}
use ele.Fs.Bitmap.{used, cleared, used-cleared}
use ele.Fs.Blocks.{IsReserved, balloc-Allocated, bfree-used, unused-apart}

-- The file system, and the blocks that belong to a file.
pub record System : Type 0 where
  pub fs : Fs
  pub held : ℕ → Bool

pub data Turn (s : System) : System → Type 0 where
  takes :
      {t : Fs} (n : ℕ)
      → balloc s.fs ≡ done (n, t)
      → Turn s (record { fs = t; held = store s.held n true })
  -- A block of a file is written.
  fills :
      (n : ℕ) (bytes : Bytes)
      → s.held n ≡ true
      → Turn s (record { fs = logged n bytes s.fs; held = s.held })
  gives :
      {t : Fs} (n : ℕ)
      → s.held n ≡ true
      → bfree n s.fs ≡ done t
      → Turn s (record { fs = t; held = store s.held n false })

pub data Turns (s : System) : System → Type 0 where
  here : Turns s s
  next : {t u : System} → Turns s t → Turn t u → Turns s u

-- The blocks that are held are marked, and are none of the bitmap's, which are marked too.
record Kept (s : System) : Type 0 where
  reserved : IsReserved s.fs
  marked_held : (n : ℕ) → s.held n ≡ true → (n < s.fs.size) × (used s.fs n ≡ true)
  apart : (n i : ℕ) → s.held n ≡ true → i < s.fs.size → (n == bblock i s.fs) ≡ false

module _ (s : System) (k : Kept s) where
  take-Kept :
      {t : Fs} (n : ℕ)
      → balloc s.fs ≡ done (n, t)
      → Kept (record { fs = t; held = store s.held n true })
  unfolding store
  take-Kept {t} n e =
      let (l, un, a) = balloc-Allocated s.fs n t k.reserved e in
      let block : (i : ℕ) → bblock i t ≡ bblock i s.fs = λ i. ap (λ x. i / bpb + x) a.starts in
      let within : (i : ℕ) → i < t.size → i < s.fs.size = λ i m. omega (arith, m, a.sizes) in
      record {
        reserved = λ i m.
            let (lower, bit) = k.reserved i (within i m) in
            rw (block i, a.sizes) (lower, a.bits _ lower ∙ ground (arith, bit));
        marked_held = λ v h. rw a.sizes (elim (Bool-cases (n == v)) [
          | inl q ↦
              subst (λ x. (x < s.fs.size) × (used t x ≡ true)) ((==_iff n v).0 q)
                (l, ground (arith, a.bits n l))
          | inr q ↦
              let (lower, bit) = k.marked_held v (ground (arith, h, q)) in
              (lower, ground (arith, a.bits v lower, bit))
        ]);
        apart = λ v i h m. rw (block i) (elim (Bool-cases (n == v)) [
          | inl q ↦
              subst (λ x. (x == bblock i s.fs) ≡ false) ((==_iff n v).0 q)
                (unused-apart s.fs n k.reserved un i (within i m))
          | inr q ↦ k.apart v i (ground (arith, h, q)) (within i m)
        ]);
      }

  fill-Kept :
      (n : ℕ) (bytes : Bytes)
      → s.held n ≡ true
      → Kept (record { fs = logged n bytes s.fs; held = s.held })
  unfolding logged
  fill-Kept n bytes h =
      let same : (i : ℕ) → i < s.fs.size → used (logged n bytes s.fs) i ≡ used s.fs i = λ i l.
        ap (λ x. has_bit (i % bpb % 8) (x (i % bpb / 8)))
          (store_ne s.fs.block n bytes _ (k.apart n i h l)) in
      record {
        reserved = λ i l. let (lower, bit) = k.reserved i l in (lower, same _ lower ∙ bit);
        marked_held = λ v m. let (lower, bit) = k.marked_held v m in (lower, same v lower ∙ bit);
        apart = k.apart;
      }

  give-Kept :
      {t : Fs} (n : ℕ)
      → s.held n ≡ true
      → bfree n s.fs ≡ done t
      → Kept (record { fs = t; held = store s.held n false })
  unfolding store logged
  give-Kept {t} n h e =
      let out : cleared n s.fs ≡ t =
        ground (arith, sym (bfree-used n s.fs (k.marked_held n h).1) ∙ e) in
      let held_apart : (v i : ℕ) → s.held v ≡ true → i < s.fs.size → (v == bblock i s.fs) ≡ false =
        k.apart in
      subst (λ x. Kept (record { fs = x; held = store s.held n false })) out
        (record {
          reserved = λ i l.
              let (lower, bit) = k.reserved i l in
              (lower, used-cleared n s.fs _ ∙ ground (arith, k.apart n i h l, bit));
          marked_held = λ v m.
              let (lower, bit) = k.marked_held v (ground (arith, m)) in
              (lower, used-cleared n s.fs v ∙ ground (arith, m, bit));
          apart = λ v i m l. held_apart v i (ground (arith, m)) l;
        })

Turn-Kept : {s t : System} → Turn s t → Kept s → Kept t
Turn-Kept {s} (takes n e) k = take-Kept s k n e
Turn-Kept {s} (fills n bytes h) k = fill-Kept s k n bytes h
Turn-Kept {s} (gives n h e) k = give-Kept s k n h e

Turns-Kept : {s t : System} → Turns s t → Kept s → Kept t
Turns-Kept here k = k
Turns-Kept (next r x) k = Turn-Kept x (Turns-Kept r k)

-- Whatever blocks files take, write and free from a state in which no block is held and the bitmap
-- marks its own blocks on: `balloc` does not return a block that is held, and `bfree` of it does not
-- panic, clears its bit in the bitmap and no other, and changes no block outside the bitmap.
pub Turns-separate :
    (fs : Fs)
    → IsReserved fs
    → {s : System} → Turns (record { fs = fs; held = λ n. false }) s
    → (n : ℕ) → s.held n ≡ true
    → ((t : Fs) → balloc s.fs ≢ done (n, t))
      × (t : Fs) × (bfree n s.fs ≡ done t)
      × ((i : ℕ) → used t i ≡ (not (n == i) && used s.fs i))
      × ((m : ℕ)
          → ((i : ℕ) → i < s.fs.size → (bblock i s.fs == m) ≡ false)
          → t.block m ≡ s.fs.block m)
unfolding logged
Turns-separate fs r {s} x n h =
    let k = Turns-Kept x (record {
      reserved = r;
      marked_held = λ v h. absurd (cc h);
      apart = λ v i h. absurd (cc h);
    }) in
    let (within, bit) = k.marked_held n h in
    (
      λ t e. cc (bit, (balloc-Allocated s.fs n t k.reserved e).1),
      cleared n s.fs,
      bfree-used n s.fs bit,
      used-cleared n s.fs,
      λ m outside. store_ne s.fs.block (bblock n s.fs) _ m (outside n within),
    )
