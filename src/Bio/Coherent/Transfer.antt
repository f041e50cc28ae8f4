-- ===== src/Bio/Coherent/Transfer.antt =====
-- `bread` once it has the lock, and `bwrite` (bio.c), keep the cache coherent.
use ele.Locks.{holdingsleep}
use ele.Bio.Coherent.Hold.{done_eq, log-Coherent}
use ele.Bio.{bread_locked, bwrite, Bcache, change, nbuf, holdingsleep}
use ele.Base.{
  ℕ, ◌<◌, ◌≡◌, sym, ap, subst, inl, inr, true, false, Bool-cases, done, store, store_self,
}
use ele.Bio.Coherent.{System, Coherent, bread_locked, bwrite}
use ele.Bio.Coherent.Bytes.{iderw-cases, writeback-Coherent, fill-Coherent}

-- `bread_locked` leaves the buffer read, with the bytes that its block was last given.
pub read-Coherent :
    (s : System) (me b : ℕ) {c : Bcache}
    → b < nbuf
    → Coherent s
    → bread_locked me b s.cache ≡ done c
    → Coherent (record s { cache = c })
unfolding bread_locked
read-Coherent s me b {c} within a e = elim (Bool-cases (s.cache.buf b).valid) [
  | inl v ↦ subst (λ d. Coherent (record s { cache = d })) (done_eq (rw (bread_locked, v) at e)) a
  | inr v ↦
      let (p, what) = iderw-cases me b s.cache (rw (bread_locked, v) at e) in
      elim what [
        | inl (y, q) ↦ absurd (cc ((a.sound b within).marked y, v))
        | inr (y, z, q) ↦
            subst (λ d. Coherent (record s { cache = d })) (sym q) (fill-Coherent s a b within p v)
      ]
]

pub write-Coherent :
    (s : System) (me b : ℕ) {c : Bcache}
    → b < nbuf
    → Coherent s
    → (s.cache.buf b).valid ≡ true
    → bwrite me b s.cache ≡ done c
    → Coherent (record s { cache = c; touched = store s.touched b false })
unfolding bwrite change store
write-Coherent s me b {c} within a v e =
    let dirtied = change b (λ x. record x { dirty = true }) s.cache in
    let t = record s { cache = dirtied; touched = store s.touched b false } in
    let same : (dirtied.buf b) ≡ record (s.cache.buf b) { dirty = true } =
      store_self s.cache.buf b _ in
    elim (Bool-cases (holdingsleep me (s.cache.buf b).lock)) [
      | inr h ↦ absurd (cc (rw (bwrite, h) at e))
      | inl h ↦
          let (p, what) = iderw-cases me b dirtied (rw (bwrite, h) at e) in
          elim what [
            | inl (y, q) ↦
                subst (λ d. Coherent (record s { cache = d; touched = store s.touched b false }))
                  (sym q) (writeback-Coherent t (log-Coherent s a b within v) b within (rw same v))
            | inr (y, z, q) ↦ absurd (cc (ap (λ x. x.dirty) same, y))
          ]
    ]
