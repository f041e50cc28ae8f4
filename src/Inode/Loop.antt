-- ===== src/Inode/Loop.antt =====
-- The loop of `writei` (fs.c): the content after it.
use ele.Strings.{Bytes}
use ele.Fs.{bsize, Fs, logged}
use ele.Inode.{chunk, writei_loop, bsize, Bytes, Inode, max_size, patched}
use ele.Base.{
  ℕ, zero, suc, ◌+◌, ◌-◌, ◌/◌, ◌%◌, ◌≤◌, ◌<◌, ◌≡◌, refl, ap, subst, ◌⊎◌, inl, inr, arith, ltb, ◌==◌,
  if◌then◌else◌, ◌*◌, Bool-cases, done, panic,
}
use ele.Inode.Slots.{IsSound}
use ele.Inode.Bmap.{bmap-Mapped}
use ele.Inode.Wrote.{Wrote, none-Wrote, then-Wrote}
use ele.Inode.Chunk.{chunk-Wrote, chunk_costs}
use ele.Fs.Free.{free}

pub chunk_bounds :
    (rest off : ℕ)
    → 0 < rest
    → (0 < chunk rest off) × (chunk rest off ≤ rest) × (off % bsize + chunk rest off ≤ bsize)
chunk_bounds rest off l = ground arith

-- The number of blocks that the bytes from `off` on are in, `rest` of them.
abbrev pub pieces : (off rest : ℕ) → ℕ
pieces off rest = if rest == 0 then 0 else (off % bsize + rest + 511) / bsize

pieces_next :
    (rest off : ℕ)
    → 0 < rest
    → pieces (off + chunk rest off) (rest - chunk rest off) + 1 ≤ pieces off rest
pieces_next rest off l = ground arith

pieces_some : (rest off : ℕ) → 0 < rest → 1 ≤ pieces off rest
pieces_some rest off l = ground (arith, l)

-- The loop from `tot` on: it writes the rest, or the disk has less than two free blocks for each block
-- to write to.
pub writei_loop-Wrote :
    (fuel tot start n : ℕ) (src : Bytes) (ip : Inode) (s : Fs)
    → IsSound ip s
    → tot ≤ n
    → n < fuel + tot
    → start + n ≤ max_size
    → ((writei_loop fuel tot (start + tot) n src ip s ≡ panic)
        × (free s < 2 * pieces (start + tot) (n - tot)))
      ⊎ ((ip' : Inode) × (t : Fs) × (writei_loop fuel tot (start + tot) n src ip s ≡ done (ip', t))
          × Wrote (start + tot) (start + n) (λ o. src (o - start)) ip s ip' t)
unfolding writei_loop
writei_loop-Wrote zero tot start n src ip s v l f top = absurd (omega (arith, l, f))
writei_loop-Wrote (suc fuel) tot start n src ip s v l f top = elim (Bool-cases (ltb tot n)) [
  | inr e ↦
      let same : tot ≡ n = ground (arith, e, l) in
      inr (
        ip,
        s,
        rw (writei_loop, e) refl,
        subst (λ x. Wrote (start + tot) (start + x) (λ o. src (o - start)) ip s ip s) same
            (none-Wrote (start + tot) (λ o. src (o - start)) ip s v),
      )
  | inl e ↦
      let off = start + tot in
      let m = chunk (n - tot) off in
      let (some_bytes, not_more, fits) = chunk_bounds (n - tot) off (ground (arith, e)) in
      elim (bmap-Mapped (off / bsize) ip s v (omega (arith, some_bytes, not_more, top, l))) [
        | inl (q, full) ↦ inl (
          rw (writei_loop, e, q) refl,
          omega (arith, full, pieces_some (n - tot) off (ground (arith, e))),
        )
        | inr (b, ip', t, q, g) ↦
            let w =
              chunk-Wrote off m src tot (λ o. src (o - start)) ip s b ip' t v
                (omega (arith, not_more, top, l)) fits some_bytes g
                (λ o p r. ap src (omega (arith, p))) in
            let u = logged b (patched (t.block b) (off % bsize) m src tot) t in
            let next : start + (tot + m) ≡ off + m = omega arith in
            elim (writei_loop-Wrote fuel (tot + m) start n src ip' u w.sound
              (omega (arith, not_more, l)) (omega (arith, some_bytes, f)) top) [
                | inl (r, full) ↦
                    let below : n - (tot + m) ≡ n - tot - m = omega arith in
                    let cost =
                      chunk_costs off m src tot (λ o. src (o - start)) ip s b ip' t v
                        (omega (arith, not_more, top, l)) fits some_bytes g in
                    let less = pieces_next (n - tot) off (ground (arith, e)) in
                    inl (
                      rw (writei_loop, e, q) (rw next at r),
                      omega (arith, cost, less, rw (next, below) at full),
                    )
                | inr (ip'', u', r, w') ↦ inr (
                  ip'',
                  u',
                  rw (writei_loop, e, q) (rw next at r),
                  then-Wrote off (off + m) (start + n) (λ o. src (o - start)) ip s ip' u ip'' u'
                      (omega arith) (omega (arith, not_more, l)) top w (rw next at w'),
                )
              ]
      ]
]
