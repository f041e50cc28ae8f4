-- ===== src/Log/Writes.antt =====
-- `write_log` and `write_head`, whatever power is left: what they change on the disk and in the
-- cache.
use ele.Log.View.{IsHome, AllHome, Copied, Copied-congr}
use ele.Log.Store.{Block, Store, bread, bwrite, write_ne, write_self}
use ele.Log.Commit.{write_log, write_head, put_header}
use ele.Base.{ℕ, suc, ◌+◌, ◌-◌, ◌≤◌, ◌<◌, ◌≡◌, refl, ◌∙◌, ◌≢◌, ◌⊎◌, List, [], ◌∷◌, arith, length}

module _ (b : ℕ) (v : Block) (s : Store) where
  pub bwrite-cache_ne : (a : ℕ) → a ≢ b → (bwrite b v s).cache a ≡ s.cache a
  unfolding bwrite
  bwrite-cache_ne a ne = write_ne s.cache b v a ne

  pub bwrite-cache_self : (bwrite b v s).cache b ≡ v
  unfolding bwrite
  bwrite-cache_self = write_self s.cache b v

  pub bwrite-disk_ne : (a : ℕ) → a ≢ b → (bwrite b v s).disk a ≡ s.disk a
  unfolding bwrite
  bwrite-disk_ne a ne = ground (arith, write_ne s.disk b v a ne)

  pub bwrite-disk_self : 0 < s.power → (bwrite b v s).disk b ≡ v
  unfolding bwrite
  bwrite-disk_self h = ground (arith, write_self s.disk b v)

  pub bwrite-off : s.power ≡ 0 → (bwrite b v s).disk ≡ s.disk
  unfolding bwrite
  bwrite-off h = rw h refl

  pub power-bwrite : (bwrite b v s).power ≡ s.power - 1
  unfolding bwrite
  power-bwrite = refl

module _ (start : ℕ) where
  pub power-write_log :
      (tail : ℕ) (bs : List ℕ) (s : Store) → (write_log start tail bs s).power ≡ s.power - length bs
  unfolding write_log
  power-write_log tail [] s = omega arith
  power-write_log tail (b ∷ bs) s =
      let v : Block = bread s b in
      omega (
        arith,
        power-write_log (suc tail) bs (bwrite (start + tail + 1) v s),
        power-bwrite (start + tail + 1) v s,
      )

  -- Only the log blocks from index `tail` on change.
  pub write_log-cache_ne :
      (tail : ℕ) (bs : List ℕ) (s : Store) (a : ℕ)
      → (a ≤ start + tail) ⊎ (start + tail + length bs < a)
      → (write_log start tail bs s).cache a ≡ s.cache a
  unfolding write_log
  write_log-cache_ne tail [] s a h = refl
  write_log-cache_ne tail (b ∷ bs) s a h =
      write_log-cache_ne (suc tail) bs (bwrite (start + tail + 1) (bread s b) s) a (omega arith)
      ∙ bwrite-cache_ne (start + tail + 1) (bread s b) s a (omega arith)

  pub write_log-disk_ne :
      (tail : ℕ) (bs : List ℕ) (s : Store) (a : ℕ)
      → (a ≤ start + tail) ⊎ (start + tail + length bs < a)
      → (write_log start tail bs s).disk a ≡ s.disk a
  unfolding write_log
  write_log-disk_ne tail [] s a h = refl
  write_log-disk_ne tail (b ∷ bs) s a h =
      write_log-disk_ne (suc tail) bs (bwrite (start + tail + 1) (bread s b) s) a (omega arith)
      ∙ bwrite-disk_ne (start + tail + 1) (bread s b) s a (omega arith)

  pub write_log-cache_home :
      (size : ℕ) (bs : List ℕ) (s : Store) (a : ℕ)
      → length bs < size
      → IsHome start size a
      → (write_log start 0 bs s).cache a ≡ s.cache a
  write_log-cache_home size bs s a l h = write_log-cache_ne 0 bs s a (omega arith)

  -- The cached log blocks hold the cached blocks of the transaction; so do those of the disk, if the
  -- power lasts.
  pub write_log-cache-Copied :
      (size tail : ℕ) (bs : List ℕ) (s : Store)
      → tail + length bs < size
      → AllHome start size bs
      → Copied start (write_log start tail bs s).cache s.cache tail bs
  unfolding write_log bread
  write_log-cache-Copied size tail [] s l h = tt
  write_log-cache-Copied size tail (b ∷ bs) s l h =
      let s' : Store = bwrite (start + tail + 1) (s.cache b) s in
      (
        write_log-cache_ne (suc tail) bs s' (start + tail + 1) (omega arith)
            ∙ bwrite-cache_self (start + tail + 1) (s.cache b) s,
        Copied-congr start size (write_log start (suc tail) bs s').cache s'.cache s.cache (suc tail)
            bs h.1 (λ a q. bwrite-cache_ne (start + tail + 1) (s.cache b) s a (omega arith))
            (write_log-cache-Copied size (suc tail) bs s' (omega arith) h.1),
      )

  pub write_log-disk-Copied :
      (size tail : ℕ) (bs : List ℕ) (s : Store)
      → tail + length bs < size
      → length bs ≤ s.power
      → AllHome start size bs
      → Copied start (write_log start tail bs s).disk s.cache tail bs
  unfolding write_log bread
  write_log-disk-Copied size tail [] s l p h = tt
  write_log-disk-Copied size tail (b ∷ bs) s l p h =
      let s' : Store = bwrite (start + tail + 1) (s.cache b) s in
      (
        write_log-disk_ne (suc tail) bs s' (start + tail + 1) (omega arith)
            ∙ bwrite-disk_self (start + tail + 1) (s.cache b) s (omega arith),
        Copied-congr start size (write_log start (suc tail) bs s').disk s'.cache s.cache (suc tail)
            bs h.1 (λ a q. bwrite-cache_ne (start + tail + 1) (s.cache b) s a (omega arith))
            (write_log-disk-Copied size (suc tail) bs s' (omega arith)
              (omega (arith, power-bwrite (start + tail + 1) (s.cache b) s)) h.1),
      )

  -- `write_head` changes the header block alone.
  pub write_head-disk_ne :
      (lh : List ℕ) (s : Store) (a : ℕ) → a ≢ start → (write_head start lh s).disk a ≡ s.disk a
  unfolding write_head
  write_head-disk_ne lh s a ne = bwrite-disk_ne start (put_header lh (bread s start)) s a ne

  pub write_head-cache_ne :
      (lh : List ℕ) (s : Store) (a : ℕ) → a ≢ start → (write_head start lh s).cache a ≡ s.cache a
  unfolding write_head
  write_head-cache_ne lh s a ne = bwrite-cache_ne start (put_header lh (bread s start)) s a ne

  pub write_head-off :
      (lh : List ℕ) (s : Store) → s.power ≡ 0 → (write_head start lh s).disk ≡ s.disk
  unfolding write_head
  write_head-off lh s e = bwrite-off start (put_header lh (bread s start)) s e

  pub write_head-disk_self :
      (lh : List ℕ) (s : Store)
      → 0 < s.power
      → (write_head start lh s).disk start ≡ put_header lh (s.cache start)
  unfolding write_head bread
  write_head-disk_self lh s h = bwrite-disk_self start (put_header lh (s.cache start)) s h

  pub write_head-cache_self :
      (lh : List ℕ) (s : Store)
      → (write_head start lh s).cache start ≡ put_header lh (s.cache start)
  unfolding write_head bread
  write_head-cache_self lh s = bwrite-cache_self start (put_header lh (s.cache start)) s

  pub power-write_head : (lh : List ℕ) (s : Store) → (write_head start lh s).power ≡ s.power - 1
  unfolding write_head
  power-write_head lh s = power-bwrite start (put_header lh (bread s start)) s
