-- ===== src/Inode/Read.antt =====
-- `readi` (fs.c): the bytes that it gives.
use ele.Fs.{Fs, bsize}
use ele.Strings.{Bytes}
use ele.Inode.{
  bmap, readi_loop, map_direct, Bytes, Inode, map_indirect, Fs, chunk, ndirect, nindirect, patched,
  readi, t_dev, moved, end_of, Moved,
}
use ele.Inode.Slots.{slot, indirect}
use ele.Inode.Content.{byte}
use ele.Inode.Write.{IsFile}
use ele.Inode.Loop.{chunk_bounds}
use ele.Base.{
  subst, sym, ℕ, zero, suc, ◌+◌, ◌-◌, ◌*◌, ◌/◌, ◌%◌, ◌≤◌, ◌<◌, ◌≡◌, refl, ap, ◌∙◌, ◌≢◌, inl, inr,
  Bool, true, false, ◌&&◌, ◌||◌, arith, ltb, leb, ◌==◌, if◌then◌else◌, Bool-cases, done, ◌>>=◌,
  load_word, ap₂, Outcome,
}

-- `bmap` of a block that is there changes nothing.
bmap-found :
    (bn : ℕ) (ip : Inode) (s : Fs)
    → bn < indirect
    → slot ip s bn ≢ 0
    → bmap bn ip s ≡ done (slot ip s bn, ip, s)
unfolding bmap map_direct map_indirect
bmap-found bn ip s l ne = elim (Bool-cases (ltb bn ndirect)) [
  | inl e ↦
      let there : (ip.addrs bn == 0) ≡ false = ground (arith, e, ne) in
      rw (bmap, e, map_direct, there) refl
  | inr e ↦
      let entry : ltb (bn - ndirect) nindirect ≡ true = ground (arith, e, l) in
      let last : (bn == indirect) ≡ false = ground (arith, l) in
      let root : (ip.addrs ndirect == 0) ≡ false = ground (arith, e, last, ne) in
      let there : (load_word (s.block (ip.addrs ndirect)) (4 * (bn - ndirect)) == 0) ≡ false =
        ground (arith, e, last, root, ne) in
      rw (bmap, e, entry, last, map_direct, root, map_indirect, there) refl
]

-- The bytes of one round, and those of the later ones.
part :
    (ip : Inode) (s : Fs) (start tot m n : ℕ) (dst : Bytes)
    → m ≤ n - tot
    → (start + tot) % bsize + m ≤ bsize
    → tot ≤ n
    → (x : ℕ)
    → (if leb (tot + m) x && ltb x n
        then byte ip s (start + x)
        else patched dst tot m
            (s.block (slot ip s ((start + tot) / bsize)))
            ((start + tot) % bsize)
            x)
      ≡ (if leb tot x && ltb x n then byte ip s (start + x) else dst x)
part ip s start tot m n dst l fits k x = elim (Bool-cases (leb tot x && ltb x (tot + m))) [
  | inl e ↦
      let low : tot ≤ x = ground (arith, e) in
      let high : x < tot + m = ground (arith, e) in
      let now : (leb tot x && ltb x n) ≡ true = ground (arith, e, l, k) in
      let not_later : (leb (tot + m) x && ltb x n) ≡ false = ground (arith, high) in
      let block : (start + tot) / bsize ≡ (start + x) / bsize = omega (arith, low, high, fits) in
      let offset : (start + tot) % bsize + (x - tot) ≡ (start + x) % bsize =
        omega (arith, low, high, fits) in
      rw (now, not_later, e) (ap₂ (λ i o. s.block (slot ip s i) o) block offset)
  | inr e ↦ rw e (ground (arith, e, l, k))
]

readi_loop-byte :
    (fuel tot start n : ℕ) (dst : Bytes) (ip : Inode) (s : Fs)
    → IsFile ip s
    → tot ≤ n
    → n < fuel + tot
    → start + n ≤ ip.size
    → (dst' : Bytes) × (readi_loop fuel tot (start + tot) n dst ip s ≡ done (dst', ip, s))
      × ((x : ℕ) → dst' x ≡ (if leb tot x && ltb x n then byte ip s (start + x) else dst x))
unfolding readi_loop
readi_loop-byte zero tot start n dst ip s f l h top = absurd (omega (arith, l, h))
readi_loop-byte (suc fuel) tot start n dst ip s f l h top = elim (Bool-cases (ltb tot n)) [
  | inr e ↦ (dst, rw (readi_loop, e) refl, λ x. ground (arith, e))
  | inl e ↦
      let off = start + tot in
      let m = chunk (n - tot) off in
      let (some_bytes, not_more, fits) = chunk_bounds (n - tot) off (ground (arith, e)) in
      let below : off < ip.size = omega (arith, some_bytes, not_more, top, l) in
      let run =
        bmap-found (off / bsize) ip s (omega (arith, below, f.bounded)) (f.dense off below) in
      let b = slot ip s (off / bsize) in
      let mid = patched dst tot m (s.block b) (off % bsize) in
      let next : start + (tot + m) ≡ off + m = omega arith in
      let (dst', q, all) =
        readi_loop-byte fuel (tot + m) start n mid ip s f (omega (arith, not_more, l))
          (omega (arith, some_bytes, h)) top in
      (
        dst',
        rw (readi_loop, e, run) (rw next at q),
        λ x. all x ∙ part ip s start tot m n dst not_more fits l x,
      )
]

from_zero : (x n a b : ℕ) → (if leb 0 x && ltb x n then a else b) ≡ (if ltb x n then a else b)
from_zero x n a b = ground arith

-- What follows the loop.
abbrev returned : ℕ → Outcome (Bytes × Inode × Fs) → Outcome (Moved × Bytes × Inode × Fs)
returned count r = r >>= λ (d, i, t). done (moved count, d, i, t)

-- `readi` of a file at an offset within its size, in terms of its loop.
readi_runs :
    (devsw : ℕ → Bool) (off n count : ℕ) (dst dst' : Bytes) (ip : Inode) (s : Fs)
    → ip.type ≢ t_dev
    → (ltb ip.size off || ltb (end_of off n) off) ≡ false
    → (if ltb ip.size (end_of off n) then ip.size - off else n) ≡ count
    → readi_loop (count + 1) 0 off count dst ip s ≡ done (dst', ip, s)
    → readi devsw ip dst off n s ≡ done (moved count, dst', ip, s)
unfolding readi
readi_runs devsw off n count dst dst' ip s file c2 e q =
    let c1 : (ip.type == t_dev) ≡ false = ground (arith, file) in
    rw (readi, c1, c2)
      (subst
        (λ c. returned c (readi_loop (c + 1) 0 off c dst ip s) ≡ done (moved count, dst', ip, s))
        (sym e) (ap (returned count) q))

-- `readi` of a file at an offset within its size, for a number of bytes whose sum with the offset is
-- below 2^32, gives the bytes from there on, as many as are asked for or as there are, leaves the rest
-- of the destination and changes nothing else.
pub readi-byte :
    (devsw : ℕ → Bool) (off n : ℕ) (dst : Bytes) (ip : Inode) (s : Fs)
    → IsFile ip s
    → ip.type ≢ t_dev
    → off ≤ ip.size
    → off + n < 4294967296
    → (dst' : Bytes) × (count : ℕ) × (readi devsw ip dst off n s ≡ done (moved count, dst', ip, s))
      × (count ≡ (if ltb ip.size (off + n) then ip.size - off else n))
      × ((x : ℕ) → dst' x ≡ (if ltb x count then byte ip s (off + x) else dst x))
readi-byte devsw off n dst ip s f file l small =
    let start : off + 0 ≡ off = omega arith in
    let whole : end_of off n ≡ off + n = omega (arith, small) in
    let count : ℕ = if ltb ip.size (off + n) then ip.size - off else n in
    let c2 : (ltb ip.size off || ltb (end_of off n) off) ≡ false = ground (arith, l, whole) in
    let fits : off + count ≤ ip.size = ground (arith, l) in
    let (dst', q, all) =
      readi_loop-byte (count + 1) 0 off count dst ip s f (omega arith) (omega arith) fits in
    (
      dst',
      count,
      readi_runs devsw off n count dst dst' ip s file c2
          (ap (λ e. if ltb ip.size e then ip.size - off else n) whole) (rw start at q),
      refl,
      λ x. all x ∙ from_zero x count (byte ip s (off + x)) (dst x),
    )
