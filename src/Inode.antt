-- ===== src/Inode.antt =====
-- xv6-public/fs.c: the content of an inode. The routines run inside a transaction on the blocks of
-- Fs, with the inode locked. Numbers of the source's `uint` and `short` are bit patterns.
pub mod Slots
pub mod Map
pub mod Grow
pub mod Bmap
pub mod Content
pub mod Wrote
pub mod Chunk
pub mod Loop
pub mod Write
pub mod Read
pub mod Stored
pub mod Disk
pub mod Trunc
pub mod Freed
pub mod FreeLoops
pub mod Truncated
pub mod Samples
mod Tests
use ele.Strings.{Bytes}
use ele.Base.{
  ℕ, zero, suc, ◌+◌, ◌-◌, ◌*◌, ◌/◌, ◌%◌, ◌^◌, ◌≤◌, ◌<◌, ◌≡◌, refl, sym, ap, ap₂, ◌∙◌, subst, ◌≢◌,
  ◌↔◌, ◌⊎◌, inl, inr, Bool, true, false, ◌&&◌, ◌||◌, not, Option, none, some, List, [], ◌∷◌, ◌++◌,
  map, arith, dec_lt, ℕ_discrete, ltb, leb, ◌==◌, if◌then◌else◌, Bool-cases, Option-cases, length,
  get_elem?, get_or, replicate, take, drop, Outcome, done, panic, undefined, ◌>>=◌, >>=-eq-done,
  pos, negsuc, ℤ, length-append, store, load_word, store_word, load_short, store_short,
}
use ele.Fs.{Fs, balloc, logged, bsize}

-- `NDIRECT`, `NINDIRECT` and `IPB` of fs.h, and the size of `struct dinode`.
abbrev pub ndirect : ℕ
ndirect = 12

abbrev pub nindirect : ℕ
nindirect = 128

abbrev pub ipb : ℕ
ipb = 8

abbrev pub dinode_size : ℕ
dinode_size = 64

-- `struct inode`, without its lock and the fields of the cache.
pub record Inode : Type 0 where
  pub inum : ℕ
  pub type : ℕ
  pub major : ℕ
  pub minor : ℕ
  pub nlink : ℕ
  pub size : ℕ
  pub addrs : ℕ → ℕ

-- `IBLOCK`
abbrev pub iblock : ℕ → Fs → ℕ
iblock i s = i / ipb + s.inodestart

-- `if((addr = ip->addrs[k]) == 0) ip->addrs[k] = addr = balloc(ip->dev);`
unfoldable pub map_direct : (k : ℕ) → Inode → Fs → Outcome (ℕ × Inode × Fs)
map_direct k ip s =
    if ip.addrs k == 0
    then (balloc s >>= λ (n, t). done (n, record ip { addrs = store ip.addrs k n }, t))
    else done (ip.addrs k, ip, s)

-- The same for entry `k` of the indirect block at `b`.
unfoldable pub map_indirect : (b k : ℕ) → Inode → Fs → Outcome (ℕ × Inode × Fs)
map_indirect b k ip s =
    if load_word (s.block b) (4 * k) == 0
    then (balloc s >>= λ (n, t). done (n, ip, logged b (store_word (t.block b) (4 * k) n) t))
    else done (load_word (s.block b) (4 * k), ip, s)

unfoldable pub bmap : (bn : ℕ) → Inode → Fs → Outcome (ℕ × Inode × Fs)
bmap bn ip s =
    if ltb bn ndirect
    then map_direct bn ip s
    else if ltb (bn - ndirect) nindirect
    then (map_direct ndirect ip s >>= λ (b, ip', t). map_indirect b (bn - ndirect) ip' t)
    else panic

-- `MAXFILE * BSIZE`, `T_DEV` and `NDEV`.
abbrev pub max_size : ℕ
max_size = (ndirect + nindirect) * bsize

abbrev pub t_dev : ℕ
t_dev = 3

abbrev pub ndev : ℕ
ndev = 10

-- `memmove(dip->addrs, ip->addrs, sizeof(ip->addrs))`, over the words from `i` on, `n` of them.
unfoldable pub put_addrs : (n i d : ℕ) → (ℕ → ℕ) → Bytes → Bytes
put_addrs zero i d addrs m = m
put_addrs (suc n) i d addrs m = put_addrs n (i + 1) d addrs (store_word m (d + 4 * i) (addrs i))

-- The assignments to the `struct dinode` at `d`.
unfoldable pub put_dinode : (d : ℕ) → Inode → Bytes → Bytes
put_dinode d ip m = put_addrs 13 0 (d + 12) ip.addrs (
    store_word
      (store_short
        (store_short (store_short (store_short m d ip.type) (d + 2) ip.major) (d + 4) ip.minor)
        (d + 6) ip.nlink)
      (d + 8) ip.size)

-- The offset of an inode in its block.
abbrev pub dinode_at : ℕ → ℕ
dinode_at inum = inum % ipb * dinode_size

unfoldable pub iupdate : Inode → Fs → Fs
iupdate ip s =
    logged (iblock ip.inum s) (put_dinode (dinode_at ip.inum) ip (s.block (iblock ip.inum s))) s

-- The inode that the `struct dinode` at `d` holds.
abbrev pub get_dinode : (inum d : ℕ) → Bytes → Inode
get_dinode inum d m = record {
  inum = inum;
  type = load_short m d;
  major = load_short m (d + 2);
  minor = load_short m (d + 4);
  nlink = load_short m (d + 6);
  size = load_word m (d + 8);
  addrs = λ i. load_word m (d + 12 + 4 * i);
}

-- `ilock`, where it reads the inode from the disk.
unfoldable pub read_inode : (inum : ℕ) → Fs → Outcome Inode
read_inode inum s =
    let ip = get_dinode inum (dinode_at inum) (s.block (iblock inum s)) in
    if ip.type == 0 then panic else done ip

-- What `readi` and `writei` return: -1, what the device's routine returns, or a number of bytes.
pub data Moved : Type 0 where
  fails : Moved
  by_device : (major : ℕ) → Moved
  moved : ℕ → Moved

-- `memmove(d, s, m)` between two areas.
abbrev pub patched : Bytes → (d m : ℕ) → Bytes → (s : ℕ) → Bytes
patched to d m from s x = if leb d x && ltb x (d + m) then from (s + (x - d)) else to x

-- `min(n - tot, BSIZE - off%BSIZE)`
abbrev pub chunk : (rest off : ℕ) → ℕ
chunk rest off = if ltb rest (bsize - off % bsize) then rest else bsize - off % bsize

-- The loop of `writei`; `src` has the bytes to write.
unfoldable pub writei_loop : (fuel tot off n : ℕ) → Bytes → Inode → Fs → Outcome (Inode × Fs)
writei_loop zero tot off n src ip s = undefined
writei_loop (suc fuel) tot off n src ip s = elim (ltb tot n) [
  | false ↦ done (ip, s)
  | true ↦
      let m = chunk (n - tot) off in
      bmap (off / bsize) ip s >>= λ (b, ip', t).
      writei_loop fuel (tot + m) (off + m) n src ip'
        (logged b (patched (t.block b) (off % bsize) m src tot) t)
]

-- The loop of `readi`; `dst` is the destination.
unfoldable pub readi_loop : (fuel tot off n : ℕ) → Bytes → Inode → Fs → Outcome (Bytes × Inode × Fs)
readi_loop zero tot off n dst ip s = undefined
readi_loop (suc fuel) tot off n dst ip s = elim (ltb tot n) [
  | false ↦ done (dst, ip, s)
  | true ↦
      let m = chunk (n - tot) off in
      bmap (off / bsize) ip s >>= λ (b, ip', t).
      readi_loop fuel (tot + m) (off + m) n (patched dst tot m (t.block b) (off % bsize)) ip' t
]

-- `off + n` as `uint`.
abbrev pub end_of : (off n : ℕ) → ℕ
end_of off n = (off + n) % 4294967296

-- `devsw` says for which devices there is a routine; a `short` below 0 is not less than `NDEV` as a bit
-- pattern. Each round moves a byte at least, so that the fuel is enough.
unfoldable pub writei :
    (devsw : ℕ → Bool) → Inode → Bytes → (off n : ℕ) → Fs → Outcome (Moved × Inode × Fs)
writei devsw ip src off n s =
    if ip.type == t_dev
    then done
        (if leb ndev ip.major || not (devsw ip.major) then fails else by_device ip.major, ip, s)
    else if ltb ip.size off || ltb (end_of off n) off
    then done (fails, ip, s)
    else if ltb max_size (end_of off n)
    then done (fails, ip, s)
    else (writei_loop (n + 1) 0 off n src ip s >>= λ (ip', t).
        let grown = record ip' { size = off + n } in
        done (
          if ltb 0 n && ltb ip'.size (off + n)
          then (moved n, grown, iupdate grown t)
          else (moved n, ip', t)))

unfoldable pub readi :
    (devsw : ℕ → Bool) → Inode → Bytes → (off n : ℕ) → Fs → Outcome (Moved × Bytes × Inode × Fs)
readi devsw ip dst off n s =
    if ip.type == t_dev
    then done (
      if leb ndev ip.major || not (devsw ip.major) then fails else by_device ip.major,
      dst,
      ip,
      s,
    )
    else if ltb ip.size off || ltb (end_of off n) off
    then done (fails, dst, ip, s)
    else let count = if ltb ip.size (end_of off n) then ip.size - off else n in
      (readi_loop (count + 1) 0 off count dst ip s >>= λ (dst', ip', t).
      done (moved count, dst', ip', t))
