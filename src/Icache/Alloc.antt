-- ===== src/Icache/Alloc.antt =====
-- `ialloc` (fs.c): the inode that it takes.
use ele.Strings.Fill.{memset-filled}
use ele.Base.{
  ℕ, zero, suc, ◌+◌, ◌*◌, ◌≤◌, ◌<◌, ◌≡◌, refl, sym, ap, ◌∙◌, subst, ◌≢◌, ◌⊎◌, inl, inr, arith, ltb,
  ◌==◌, Bool-cases, panic, load_word, ltb→lt, load_short, store_short-outside, store_self, ==_iff,
  load_word-congr, store_short, load_short-store_short,
}
use ele.Icache.{Icache, ialloc, ialloc_loop, iget}
use ele.Inode.{Inode, iblock, dinode_at, dinode_size, get_dinode}
use ele.Inode.Disk.{on_disk, on_disk-logged, Same, load_short-congr}
use ele.Strings.{memset, Bytes}
use ele.Fs.{Fs, logged}

-- The bytes of the block with the inode once it is taken.
abbrev typed : (inum type : ℕ) → Fs → Bytes
typed inum type s =
    store_short (memset (dinode_at inum) 0 dinode_size (s.block (iblock inum s))) (dinode_at inum)
      type

-- The file system with the inode `inum` taken.
abbrev taken : (inum type : ℕ) → Fs → Fs
taken inum type s = logged (iblock inum s) (typed inum type s) s

typed-outside :
    (inum type : ℕ) (s : Fs) (x : ℕ)
    → (x < dinode_at inum) ⊎ (dinode_at inum + dinode_size ≤ x)
    → typed inum type s x ≡ s.block (iblock inum s) x
typed-outside inum type s x h =
    let d = dinode_at inum in
    let m = s.block (iblock inum s) in
    store_short-outside (memset d 0 dinode_size m) d type x (ground (arith, h))
    ∙ ap (λ f. f x) (memset-filled d 0 dinode_size m)
    ∙ ground (arith, h)

typed-zero :
    (inum type : ℕ) (s : Fs) (x : ℕ)
    → dinode_at inum + 2 ≤ x
    → x < dinode_at inum + dinode_size
    → typed inum type s x ≡ 0
typed-zero inum type s x l h =
    let d = dinode_at inum in
    let m = s.block (iblock inum s) in
    store_short-outside (memset d 0 dinode_size m) d type x (inr l)
    ∙ ap (λ f. f x) (memset-filled d 0 dinode_size m)
    ∙ ground (arith, l, h)

load_word-zero : (m : Bytes) (a : ℕ) → ((x : ℕ) → a ≤ x → x < a + 4 → m x ≡ 0) → load_word m a ≡ 0
unfolding load_word
load_word-zero m a h = load_word-congr m (λ x. 0) a h

load_short-zero : (m : Bytes) (a : ℕ) → ((x : ℕ) → a ≤ x → x < a + 2 → m x ≡ 0) → load_short m a ≡ 0
unfolding load_short
load_short-zero m a h = load_short-congr m (λ x. 0) a h

-- A new inode: it has the type, and all else is 0.
pub record IsNew (inum type : ℕ) (ip : Inode) : Type 0 where
  pub number : ip.inum ≡ inum
  pub typed_as : ip.type ≡ type
  pub no_major : ip.major ≡ 0
  pub no_minor : ip.minor ≡ 0
  pub no_links : ip.nlink ≡ 0
  pub no_bytes : ip.size ≡ 0
  pub no_blocks : (i : ℕ) → i < 13 → ip.addrs i ≡ 0

taken-IsNew :
    (inum type : ℕ) (s : Fs) → type < 65536 → IsNew inum type (on_disk inum (taken inum type s))
unfolding logged
taken-IsNew inum type s small =
    let d = dinode_at inum in
    let m = s.block (iblock inum s) in
    subst (λ b. IsNew inum type (get_dinode inum d b))
      (sym (store_self s.block (iblock inum s) (typed inum type s)))
      (record {
        number = refl;
        typed_as = load_short-store_short (memset d 0 dinode_size m) d type small;
        no_major =
            load_short-zero (typed inum type s) (d + 2)
              (λ x a b. typed-zero inum type s x (omega (arith, a)) (omega (arith, b)));
        no_minor =
            load_short-zero (typed inum type s) (d + 4)
              (λ x a b. typed-zero inum type s x (omega (arith, a)) (omega (arith, b)));
        no_links =
            load_short-zero (typed inum type s) (d + 6)
              (λ x a b. typed-zero inum type s x (omega (arith, a)) (omega (arith, b)));
        no_bytes =
            load_word-zero (typed inum type s) (d + 8)
              (λ x a b. typed-zero inum type s x (omega (arith, a)) (omega (arith, b)));
        no_blocks = λ i l.
            load_word-zero (typed inum type s) (d + 12 + 4 * i)
              (λ x a b. typed-zero inum type s x (omega (arith, a)) (omega (arith, b, l)));
      })

ialloc_loop-first :
    (fuel inum dev type : ℕ) (c : Icache)
    → 0 < fuel
    → c.fs.ninodes < fuel + inum
    → (((j : ℕ) → inum ≤ j → j < c.fs.ninodes → (on_disk j c.fs).type ≢ 0)
        × (ialloc_loop fuel inum dev type c ≡ panic))
      ⊎ ((n : ℕ) × (inum ≤ n)
          × (n < c.fs.ninodes)
          × ((on_disk n c.fs).type ≡ 0)
          × ((j : ℕ) → inum ≤ j → j < n → (on_disk j c.fs).type ≢ 0)
          × (ialloc_loop fuel inum dev type c ≡ iget dev n (record c { fs = taken n type c.fs })))
unfolding ialloc_loop
ialloc_loop-first zero inum dev type c some_fuel l = absurd (omega (arith, some_fuel))
ialloc_loop-first (suc fuel) inum dev type c some_fuel l =
    elim (Bool-cases (ltb inum c.fs.ninodes)) [
      | inr e ↦ inl (λ j a b. absurd (ground (arith, a, b, e)), rw (ialloc_loop, e) refl)
      | inl e ↦ elim (Bool-cases ((on_disk inum c.fs).type == 0)) [
        | inl z ↦ inr (
          inum,
          omega arith,
          ltb→lt inum c.fs.ninodes e,
          ground (arith, z),
          λ j a b. absurd (omega (arith, a, b)),
          rw (ialloc_loop, e, z) refl,
        )
        | inr z ↦
            let not_here : (j : ℕ)
                → inum ≤ j
                → ((inum + 1 ≤ j) → (on_disk j c.fs).type ≢ 0)
                → (on_disk j c.fs).type ≢ 0 =
              λ j a rest. elim (Bool-cases (inum == j)) [
                | inl q ↦
                    subst (λ i. (on_disk i c.fs).type ≢ 0) ((==_iff inum j).0 q)
                      (λ y. ground (arith, z, y))
                | inr q ↦ rest (ground (arith, a, q))
              ] in
            elim (ialloc_loop-first fuel (inum + 1) dev type c (ground (arith, l, e))
              (omega (arith, l))) [
                | inl (all, q) ↦
                    inl (λ j a b. not_here j a (λ h. all j h b), rw (ialloc_loop, e, z) q)
                | inr (n, a, b, free, all, q) ↦ inr (
                  n,
                  omega (arith, a),
                  b,
                  free,
                  λ j h k. not_here j h (λ g. all j g k),
                  rw (ialloc_loop, e, z) q,
                )
              ]
      ]
    ]

-- `ialloc` panics when no inode of the disk after inode 0 is free. Otherwise it takes the first that is
-- free: on the disk that inode then has the type and all else is 0, the others are as before, and
-- the result is that of `iget` for it.
pub ialloc-first :
    (dev type : ℕ) (c : Icache)
    → type < 65536
    → (((j : ℕ) → 1 ≤ j → j < c.fs.ninodes → (on_disk j c.fs).type ≢ 0)
        × (ialloc dev type c ≡ panic))
      ⊎ ((n : ℕ) × (t : Fs) × (1 ≤ n)
          × (n < c.fs.ninodes)
          × ((on_disk n c.fs).type ≡ 0)
          × ((j : ℕ) → 1 ≤ j → j < n → (on_disk j c.fs).type ≢ 0)
          × (ialloc dev type c ≡ iget dev n (record c { fs = t }))
          × IsNew n type (on_disk n t)
          × ((j : ℕ) → j ≢ n → Same (on_disk j t) (on_disk j c.fs)))
unfolding ialloc
ialloc-first dev type c small =
    elim (ialloc_loop-first (c.fs.ninodes + 1) 1 dev type c (omega arith) (omega arith)) [
      | inl (all, q) ↦ inl (all, q)
      | inr (n, a, b, free, all, q) ↦ inr (
        n,
        taken n type c.fs,
        a,
        b,
        free,
        all,
        q,
        taken-IsNew n type c.fs small,
        on_disk-logged n (typed n type c.fs) c.fs (typed-outside n type c.fs),
      )
    ]
