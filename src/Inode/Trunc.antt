-- ===== src/Inode/Trunc.antt =====
-- `itrunc` (fs.c).
use ele.Base.{
  ℕ, zero, suc, ◌+◌, ◌*◌, true, false, ◌==◌, if◌then◌else◌, Outcome, done, ◌>>=◌, load_word, store,
  ◌≡◌, arith, >>=-eq-done, Bool-cases, inl, sym, ◌∙◌, inr,
}
use ele.Inode.{Inode, Bytes, ndirect, nindirect, iupdate}
use ele.Fs.{Fs, bfree}

-- The loop over the direct blocks from `i` on, `n` of them.
unfoldable pub free_direct : (n i : ℕ) → Inode → Fs → Outcome (Inode × Fs)
free_direct zero i ip s = done (ip, s)
free_direct (suc n) i ip s = elim (ip.addrs i == 0) [
  | true ↦ free_direct n (i + 1) ip s
  | false ↦
      bfree (ip.addrs i) s >>= free_direct n (i + 1) (record ip { addrs = store ip.addrs i 0 })
]

-- The loop over the entries of the indirect block from `j` on, `n` of them; `a` has its bytes.
unfoldable pub free_entries : (n j : ℕ) → (a : Bytes) → Fs → Outcome Fs
free_entries zero j a s = done s
free_entries (suc n) j a s = elim (load_word a (4 * j) == 0) [
  | true ↦ free_entries n (j + 1) a s
  | false ↦ bfree (load_word a (4 * j)) s >>= free_entries n (j + 1) a
]

-- The indirect block and its entries.
unfoldable pub free_indirect : Inode → Fs → Outcome (Inode × Fs)
free_indirect ip s =
    if ip.addrs ndirect == 0
    then done (ip, s)
    else (free_entries nindirect 0 (s.block (ip.addrs ndirect)) s >>= λ t.
        bfree (ip.addrs ndirect) t >>= λ u.
        done (record ip { addrs = store ip.addrs ndirect 0 }, u))

unfoldable pub itrunc : Inode → Fs → Outcome (Inode × Fs)
itrunc ip s = free_direct ndirect 0 ip s >>= λ (ip', t). free_indirect ip' t >>= λ (ip'', u).
    let cut = record ip'' { size = 0 } in done (cut, iupdate cut u)

-- The number of the inode stays.
free_direct_inum :
    (n i : ℕ) (ip ip' : Inode) (s t : Fs)
    → free_direct n i ip s ≡ done (ip', t)
    → ip'.inum ≡ ip.inum
unfolding free_direct
free_direct_inum zero i ip ip' s t h = ground (arith, h)
free_direct_inum (suc n) i ip ip' s t h = elim (Bool-cases (ip.addrs i == 0)) [
  | inl e ↦ free_direct_inum n (i + 1) ip ip' s t (rw (free_direct, e) at h)
  | inr e ↦
      let (u, q, r) =
        >>=-eq-done (bfree (ip.addrs i) s)
          (free_direct n (i + 1) (record ip { addrs = store ip.addrs i 0 }))
          (rw (free_direct, e) at h) in
      free_direct_inum n (i + 1) (record ip { addrs = store ip.addrs i 0 }) ip' u t r
]

free_indirect_inum :
    (ip ip' : Inode) (s t : Fs) → free_indirect ip s ≡ done (ip', t) → ip'.inum ≡ ip.inum
unfolding free_indirect
free_indirect_inum ip ip' s t h = elim (Bool-cases (ip.addrs ndirect == 0)) [
  | inl e ↦ ground (arith, rw (free_indirect, e) at h)
  | inr e ↦
      let (u, q, r) =
        >>=-eq-done (free_entries nindirect 0 (s.block (ip.addrs ndirect)) s) _
          (rw (free_indirect, e) at h) in
      let (v, q2, r2) = >>=-eq-done (bfree (ip.addrs ndirect) u) _ r in ground (arith, r2)
]

pub itrunc_inum : (ip ip' : Inode) (s t : Fs) → itrunc ip s ≡ done (ip', t) → ip'.inum ≡ ip.inum
unfolding itrunc
itrunc_inum ip ip' s t h =
    let (a, q, r) = >>=-eq-done (free_direct ndirect 0 ip s) _ h in
    let (b, q2, r2) = >>=-eq-done (free_indirect a.0 a.1) _ r in
    let last : b.0.inum ≡ ip'.inum = ground (arith, r2) in
    sym last ∙ free_indirect_inum a.0 b.0 a.1 b.1 q2 ∙ free_direct_inum ndirect 0 ip a.0 s a.1 q
