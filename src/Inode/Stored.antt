-- ===== src/Inode/Stored.antt =====
-- The fields of a `struct dinode` (fs.h) that `iupdate` (fs.c) wrote.
use ele.Strings.{Bytes}
use ele.Inode.{Inode, put_addrs, put_dinode, Bytes}
use ele.Base.{
  ℕ, zero, suc, ◌+◌, ◌*◌, ◌≤◌, ◌<◌, ◌≡◌, refl, ap₂, ◌∙◌, ◌⊎◌, inl, inr, arith, ◌==◌, Bool-cases,
  load_word, load_short, store_word, store_short, store_word-outside, load_word-congr,
  load_word-store_word,
}

-- The fields fit where the disk has them.
pub record IsStored (ip : Inode) : Type 0 where
  pub type_short : ip.type < 65536
  pub major_short : ip.major < 65536
  pub minor_short : ip.minor < 65536
  pub nlink_short : ip.nlink < 65536
  pub size_word : ip.size < 4294967296
  pub addr_words : (i : ℕ) → i < 13 → ip.addrs i < 4294967296

pub put_addrs-outside :
    (n i d : ℕ) (addrs : ℕ → ℕ) (m : Bytes) (x : ℕ)
    → (x < d + 4 * i) ⊎ (d + 4 * (i + n) ≤ x)
    → put_addrs n i d addrs m x ≡ m x
unfolding put_addrs
put_addrs-outside zero i d addrs m x h = refl
put_addrs-outside (suc n) i d addrs m x h =
    put_addrs-outside n (i + 1) d addrs (store_word m (d + 4 * i) (addrs i)) x (ground (arith, h))
    ∙ store_word-outside m (d + 4 * i) (addrs i) x (ground (arith, h))

load_word-put_addrs :
    (n i d : ℕ) (addrs : ℕ → ℕ) (m : Bytes) (k : ℕ)
    → i ≤ k
    → k < i + n
    → addrs k < 4294967296
    → load_word (put_addrs n i d addrs m) (d + 4 * k) ≡ addrs k
unfolding put_addrs
load_word-put_addrs zero i d addrs m k l h w = absurd (omega (arith, l, h))
load_word-put_addrs (suc n) i d addrs m k l h w =
    let mid = store_word m (d + 4 * i) (addrs i) in
    elim (Bool-cases (i == k)) [
      | inl e ↦
          let here : i ≡ k = ground (arith, e) in
          load_word-congr (put_addrs n (i + 1) d addrs mid) mid (d + 4 * k)
            (λ x a b. put_addrs-outside n (i + 1) d addrs mid x (inl (omega (arith, b, here))))
          ∙ rw here (load_word-store_word m (d + 4 * k) (addrs k) w)
      | inr e ↦
          load_word-put_addrs n (i + 1) d addrs mid k (ground (arith, e, l)) (omega (arith, h)) w
    ]

-- The fields before the addresses.
abbrev pub put_fields : ℕ → Inode → Bytes → Bytes
put_fields d ip m =
    store_word
      (store_short
        (store_short (store_short (store_short m d ip.type) (d + 2) ip.major) (d + 4) ip.minor)
        (d + 6) ip.nlink)
      (d + 8) ip.size

put_dinode-low :
    (d : ℕ) (ip : Inode) (m : Bytes) (x : ℕ)
    → x < d + 12
    → put_dinode d ip m x ≡ put_fields d ip m x
unfolding put_dinode
put_dinode-low d ip m x l = put_addrs-outside 13 0 (d + 12) ip.addrs _ x (inl (omega (arith, l)))

pub stored_type :
    (d : ℕ) (ip : Inode) (m : Bytes) → ip.type < 65536 → load_short (put_dinode d ip m) d ≡ ip.type
unfolding load_short store_short store_word
stored_type d ip m l =
    ap₂ (λ a b. a + 256 * b) (put_dinode-low d ip m d (omega arith))
      (put_dinode-low d ip m (d + 1) (omega arith))
    ∙ ground (arith, l)

-- The loads of the fields of a `struct dinode` that was written.
module _ (d : ℕ) (ip : Inode) (m : Bytes) (f : IsStored ip) where
  low : (k : ℕ) → k < 12 → put_dinode d ip m (d + k) ≡ put_fields d ip m (d + k)
  low k l = put_dinode-low d ip m (d + k) (omega (arith, l))

  pub stored_major : load_short (put_dinode d ip m) (d + 2) ≡ ip.major
  unfolding load_short store_short store_word
  stored_major =
      ap₂ (λ a b. a + 256 * b) (low 2 (omega arith))
        (put_dinode-low d ip m (d + 2 + 1) (omega arith))
      ∙ ground (arith, f.major_short)

  pub stored_minor : load_short (put_dinode d ip m) (d + 4) ≡ ip.minor
  unfolding load_short store_short store_word
  stored_minor =
      ap₂ (λ a b. a + 256 * b) (low 4 (omega arith))
        (put_dinode-low d ip m (d + 4 + 1) (omega arith))
      ∙ ground (arith, f.minor_short)

  pub stored_nlink : load_short (put_dinode d ip m) (d + 6) ≡ ip.nlink
  unfolding load_short store_short store_word
  stored_nlink =
      ap₂ (λ a b. a + 256 * b) (low 6 (omega arith))
        (put_dinode-low d ip m (d + 6 + 1) (omega arith))
      ∙ ground (arith, f.nlink_short)

  pub stored_size : load_word (put_dinode d ip m) (d + 8) ≡ ip.size
  stored_size =
      load_word-congr (put_dinode d ip m) (put_fields d ip m) (d + 8)
        (λ x a b. put_dinode-low d ip m x (omega (arith, b)))
      ∙ load_word-store_word _ (d + 8) ip.size f.size_word

  pub stored_addr : (i : ℕ) → i < 13 → load_word (put_dinode d ip m) (d + 12 + 4 * i) ≡ ip.addrs i
  unfolding put_dinode
  stored_addr i l =
      load_word-put_addrs 13 0 (d + 12) ip.addrs (put_fields d ip m) i (omega arith) l
        (f.addr_words i l)
