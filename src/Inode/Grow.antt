-- ===== src/Inode/Grow.antt =====
-- The parts of `bmap` (fs.c) that allocate: a direct block, and an entry of the indirect block.
use ele.Fs.Blocks.{IsReserved, balloc-first}
use ele.Fs.Free.{free, free_none}
use ele.Inode.{Inode, map_direct, ndirect, nindirect, map_indirect}
use ele.Base.{
  ℕ, ◌≤◌, ◌<◌, ◌≡◌, refl, sym, ap, ◌∙◌, ◌≢◌, ◌⊎◌, inl, inr, arith, ◌==◌, if◌then◌else◌, Bool-cases,
  done, panic, ==_iff, store, ◌+◌, load_word, ◌*◌, ◌-◌, ◌%◌, ◌/◌, store_ne, store_word,
}
use ele.Fs.{Fs, balloc, logged, has_bit, bpb, bblock}
use ele.Inode.Slots.{slot, indirect, nslot, IsSound}
use ele.Inode.Map.{
  Grown, found-Grown, fresh-Grown, direct-slots, indirect-slots, entered, entered-slots, fresh,
}

balloc-cases :
    (s : Fs)
    → IsReserved s
    → ((balloc s ≡ panic) × (free s ≡ 0)) ⊎ ((n : ℕ) × (t : Fs) × (balloc s ≡ done (n, t)))
balloc-cases s r = elim (balloc-first s r) [
  | inl (all, e) ↦ inl (e, free_none s all)
  | inr (n, t, l, u, least, e, a) ↦ inr (n, t, e)
]

abbrev slot_of : ℕ → ℕ
slot_of k = if k == ndirect then indirect else k

slot_of-direct : (k : ℕ) (ip : Inode) (s : Fs) → k ≤ ndirect → slot ip s (slot_of k) ≡ ip.addrs k
slot_of-direct k ip s l = elim (Bool-cases (k == ndirect)) [
  | inl e ↦ rw e (ap ip.addrs (sym ((==_iff k ndirect).0 e)))
  | inr e ↦ ground (arith, l, e)
]

new_slots :
    (k : ℕ) (ip : Inode) (s : Fs) (v : IsSound ip s) (n : ℕ) (t : Fs) (e : balloc s ≡ done (n, t))
    → k ≤ ndirect
    → ip.addrs k ≡ 0
    → (j : ℕ) → j < nslot
    → slot (record ip { addrs = store ip.addrs k n }) t j
      ≡ (if slot_of k == j then n else slot ip s j)
new_slots k ip s v n t e l z j m = elim (Bool-cases (k == ndirect)) [
  | inl q ↦
      let last : k ≡ ndirect = (==_iff k ndirect).0 q in
      rw last (indirect-slots ip s v n t e (sym (ap ip.addrs last) ∙ z) j m)
  | inr q ↦ rw q (direct-slots ip s v n t e k (ground (arith, l, q)) j m)
]

pub map_direct-Grown :
    (k : ℕ) (ip : Inode) (s : Fs)
    → IsSound ip s
    → k ≤ ndirect
    → ((map_direct k ip s ≡ panic) × (free s ≡ 0))
      ⊎ ((a : ℕ) × (ip' : Inode) × (t : Fs) × (map_direct k ip s ≡ done (a, ip', t))
          × Grown (slot_of k) ip s a ip' t)
unfolding map_direct
map_direct-Grown k ip s v l =
    let same = slot_of-direct k ip s l in
    elim (Bool-cases (ip.addrs k == 0)) [
      | inr z ↦
          let ne : slot ip s (slot_of k) ≢ 0 = λ q. cc (rw (sym same ∙ q) at z) in
          inr (
            slot ip s (slot_of k),
            ip,
            s,
            rw z (ap (λ x. done (x, ip, s)) (sym same)),
            found-Grown (slot_of k) ip s v ne,
          )
      | inl z ↦ elim (balloc-cases s v.reserved) [
        | inl (e, full) ↦ inl (rw (map_direct, z, e) refl, full)
        | inr (n, t, e) ↦
            let ip' : Inode = record ip { addrs = store ip.addrs k n } in
            inr (
              n,
              ip',
              t,
              rw (map_direct, z, e) refl,
              fresh-Grown ip s v n t e (slot_of k) ip' t (ground (arith, l))
                  (same ∙ (==_iff _ 0).0 z) refl (refl, refl, refl) (λ i m. refl)
                  (new_slots k ip s v n t e l ((==_iff _ 0).0 z)) (λ m q. refl),
            )
      ]
    ]

entry_slot :
    (k : ℕ) (ip : Inode) (s : Fs)
    → k < nindirect
    → ip.addrs ndirect ≢ 0
    → slot ip s (ndirect + k) ≡ load_word (s.block (ip.addrs ndirect)) (4 * k)
entry_slot k ip s l ne =
    let same : ndirect + k - ndirect ≡ k = omega arith in
    ground (arith, l, ne, ap (λ x. load_word (s.block (ip.addrs ndirect)) (4 * x)) same)

pub map_indirect-Grown :
    (k : ℕ) (ip : Inode) (s : Fs)
    → IsSound ip s
    → k < nindirect
    → ip.addrs ndirect ≢ 0
    → ((map_indirect (ip.addrs ndirect) k ip s ≡ panic) × (free s ≡ 0))
      ⊎ ((a : ℕ) × (ip' : Inode) × (t : Fs) × (map_indirect (ip.addrs ndirect) k ip s
            ≡ done (a, ip', t))
          × Grown (ndirect + k) ip s a ip' t)
unfolding map_indirect logged
map_indirect-Grown k ip s v l ne =
    let b = ip.addrs ndirect in
    let word = load_word (s.block b) (4 * k) in
    let same : slot ip s (ndirect + k) ≡ word = entry_slot k ip s l ne in
    elim (Bool-cases (word == 0)) [
      | inr z ↦ inr (
        slot ip s (ndirect + k),
        ip,
        s,
        rw z (ap (λ x. done (x, ip, s)) (sym same)),
        found-Grown (ndirect + k) ip s v (λ q. cc (rw (sym same ∙ q) at z)),
      )
      | inl z ↦ elim (balloc-cases s v.reserved) [
        | inl (e, full) ↦ inl (rw (map_indirect, z, e) refl, full)
        | inr (n, t, e) ↦ inr (
          n,
          ip,
          entered ip s v n t e k,
          rw (map_indirect, z, e) refl,
          fresh-Grown ip s v n t e (ndirect + k) ip (entered ip s v n t e k) (omega (arith, l))
              (same ∙ (==_iff _ 0).0 z) refl (refl, refl, refl)
              (λ i m.
                ap (λ y. has_bit (i % bpb % 8) (y (i % bpb / 8)))
                  (store_ne t.block b (store_word (t.block b) (4 * k) n) (bblock i t) (
                    rw (fresh ip s v n t e).2.starts
                      ((v.placed.content indirect (omega arith) ne).not_bitmap i m))))
              (entered-slots ip s v n t e k l ne)
              (λ m q. store_ne t.block b (store_word (t.block b) (4 * k) n) m q),
        )
      ]
    ]
