-- ===== src/Inode/Disk.antt =====
-- `iupdate` and the read in `ilock` (fs.c): an inode on the disk.
use ele.Fs.{Fs, logged}
use ele.Strings.{Bytes}
use ele.Inode.{
  Inode, put_dinode, Bytes, read_inode, Fs, dinode_size, iupdate, get_dinode, dinode_at, iblock,
}
use ele.Base.{
  ℕ, ◌+◌, ◌*◌, ◌≤◌, ◌<◌, ◌≡◌, refl, ap₂, ◌∙◌, ◌⊎◌, inl, inr, arith, ◌==◌, Bool-cases, load_short,
  store_word, store_short, load_word-congr, store, ◌≢◌, done, subst, store_self, ap, sym, false,
  store_ne,
}
use ele.Inode.Stored.{
  IsStored, put_addrs-outside, put_fields, stored_type, stored_major, stored_minor, stored_nlink,
  stored_size, stored_addr,
}

-- Inodes with the same fields and the same addresses.
pub record Same (ip ip' : Inode) : Type 0 where
  pub inum : ip.inum ≡ ip'.inum
  pub type : ip.type ≡ ip'.type
  pub major : ip.major ≡ ip'.major
  pub minor : ip.minor ≡ ip'.minor
  pub nlink : ip.nlink ≡ ip'.nlink
  pub size : ip.size ≡ ip'.size
  pub addrs : (i : ℕ) → i < 13 → ip.addrs i ≡ ip'.addrs i

get_dinode-put_dinode :
    (d : ℕ) (ip : Inode) (m : Bytes)
    → IsStored ip
    → Same (get_dinode ip.inum d (put_dinode d ip m)) ip
get_dinode-put_dinode d ip m f = record {
  inum = refl;
  type = stored_type d ip m f.type_short;
  major = stored_major d ip m f;
  minor = stored_minor d ip m f;
  nlink = stored_nlink d ip m f;
  size = stored_size d ip m f;
  addrs = stored_addr d ip m f;
}

pub load_short-congr :
    (m m' : Bytes) (a : ℕ)
    → ((x : ℕ) → a ≤ x → x < a + 2 → m x ≡ m' x)
    → load_short m a ≡ load_short m' a
unfolding load_short
load_short-congr m m' a h =
    ap₂ (λ x y. x + 256 * y) (h a (omega arith) (omega arith))
      (h (a + 1) (omega arith) (omega arith))

get_dinode-congr :
    (inum d : ℕ) (m m' : Bytes)
    → ((x : ℕ) → d ≤ x → x < d + dinode_size → m x ≡ m' x)
    → Same (get_dinode inum d m) (get_dinode inum d m')
get_dinode-congr inum d m m' h = record {
  inum = refl;
  type = load_short-congr m m' d (λ x a b. h x a (omega (arith, b)));
  major = load_short-congr m m' (d + 2) (λ x a b. h x (omega (arith, a)) (omega (arith, b)));
  minor = load_short-congr m m' (d + 4) (λ x a b. h x (omega (arith, a)) (omega (arith, b)));
  nlink = load_short-congr m m' (d + 6) (λ x a b. h x (omega (arith, a)) (omega (arith, b)));
  size = load_word-congr m m' (d + 8) (λ x a b. h x (omega (arith, a)) (omega (arith, b)));
  addrs = λ i l.
      load_word-congr m m' (d + 12 + 4 * i) (λ x a b. h x (omega (arith, a)) (omega (arith, b, l)));
}

put_dinode-outside :
    (d : ℕ) (ip : Inode) (m : Bytes) (x : ℕ)
    → (x < d) ⊎ (d + dinode_size ≤ x)
    → put_dinode d ip m x ≡ m x
unfolding put_dinode store_short store_word store
put_dinode-outside d ip m x h =
    put_addrs-outside 13 0 (d + 12) ip.addrs (put_fields d ip m) x (ground (arith, h))
    ∙ ground (arith, h)

pub block_iupdate :
    (ip : Inode) (s : Fs)
    → (iupdate ip s).block (iblock ip.inum (iupdate ip s))
      ≡ put_dinode (dinode_at ip.inum) ip (s.block (iblock ip.inum s))
unfolding iupdate logged
block_iupdate ip s = store_self s.block (iblock ip.inum s) _

-- The inode `j` that the disk has.
abbrev pub on_disk : ℕ → Fs → Inode
on_disk j s = get_dinode j (dinode_at j) (s.block (iblock j s))

-- A change of the inode `n` on the disk leaves the others as they are.
pub on_disk-logged :
    (n : ℕ) (bytes : Bytes) (s : Fs)
    → ((x : ℕ)
        → (x < dinode_at n) ⊎ (dinode_at n + dinode_size ≤ x)
        → bytes x ≡ s.block (iblock n s) x)
    → (j : ℕ) → j ≢ n
    → Same (on_disk j (logged (iblock n s) bytes s)) (on_disk j s)
unfolding logged
on_disk-logged n bytes s h j ne =
    get_dinode-congr j (dinode_at j) (store s.block (iblock n s) bytes (iblock j s))
      (s.block (iblock j s))
      (λ x a b. elim (Bool-cases (iblock n s == iblock j s)) [
        | inl e ↦
            let same : iblock n s ≡ iblock j s = ground (arith, e) in
            ap (λ i. store s.block (iblock n s) bytes i x) (sym same)
            ∙ ap (λ f. f x) (store_self s.block (iblock n s) bytes)
            ∙ h x (ground (arith, ne, same, a, b))
            ∙ ap (λ i. s.block i x) same
        | inr e ↦ ap (λ f. f x) (store_ne s.block (iblock n s) bytes (iblock j s) e)
      ])

on_disk-iupdate :
    (ip : Inode) (s : Fs) (j : ℕ) → j ≢ ip.inum → Same (on_disk j (iupdate ip s)) (on_disk j s)
unfolding iupdate
on_disk-iupdate ip s =
    on_disk-logged ip.inum (put_dinode (dinode_at ip.inum) ip (s.block (iblock ip.inum s))) s
      (put_dinode-outside (dinode_at ip.inum) ip (s.block (iblock ip.inum s)))

-- After `iupdate` of an inode with a type and fields that fit, `ilock` reads from the disk what the inode
-- was, and every other inode of the disk is as it was.
pub read_inode-iupdate :
    (ip : Inode) (s : Fs)
    → IsStored ip
    → ip.type ≢ 0
    → ((ip' : Inode) × (read_inode ip.inum (iupdate ip s) ≡ done ip') × Same ip' ip)
      × ((j : ℕ) → j ≢ ip.inum → Same (on_disk j (iupdate ip s)) (on_disk j s))
unfolding read_inode
read_inode-iupdate ip s f live =
    let new = on_disk ip.inum (iupdate ip s) in
    let written : Same new ip =
      subst (λ m. Same (get_dinode ip.inum (dinode_at ip.inum) m) ip) (sym (block_iupdate ip s))
        (get_dinode-put_dinode (dinode_at ip.inum) ip (s.block (iblock ip.inum s)) f) in
    let typed : (new.type == 0) ≡ false = ground (arith, written.type, live) in
    ((new, rw (read_inode, typed) refl, written), on_disk-iupdate ip s)
