-- ===== src/Log/Atomic.antt =====
-- Recovery, also when it is interrupted, and the theorems about a whole crash and restart.
use ele.Log.Writes.{power-write_head}
use ele.Log.Recovery.{Committed, finish-Installed, finish-view, finish}
use ele.Log.View.{header, IsHome}
use ele.Log.Crash.{
  commit-cons, commit-nil, IsLogDisk, Ready, Torn, finish-IsLogDisk, commit-Torn, commit-nil,
  listed, listed-Committed, power-logged, logged, view-listed,
}
use ele.Log.Store.{Disk, Store, boot, bread}
use ele.Log.Commit.{recover_from_log, read_head, commit}
use ele.Base.{ℕ, ◌+◌, ◌*◌, ◌≤◌, ◌≡◌, refl, sym, ◌∙◌, ◌⊎◌, inl, inr, List, [], ◌∷◌, arith, length}

-- Starts that were cut short: each boots the disk that the one before left, and runs recovery until
-- its power fails.
pub recoveries : (start : ℕ) → Disk → List ℕ → Disk
recoveries start d [] = d
recoveries start d (q ∷ qs) = recoveries start (recover_from_log start (boot d q)).disk qs

recover-finish :
    (start : ℕ) (d : Disk) (q : ℕ)
    → recover_from_log start (boot d q) ≡ finish start (header start d) (boot d q)
unfolding recover_from_log read_head bread header
recover-finish start d q = refl

module _ (start size : ℕ) where
  boot-Committed :
      (d : Disk) (q : ℕ) → IsLogDisk start size d → Committed start size (header start d) (boot d q)
  boot-Committed d q v = record {
    listed = refl;
    home = v.home;
    distinct = v.distinct;
    room = v.room;
    fits = v.fits;
    fits_disk = v.fits;
    slots = λ c l m. refl;
  }

  recover-Torn :
      (old new d : Disk) (q : ℕ)
      → Torn start size old new d
      → Torn start size old new (recover_from_log start (boot d q)).disk
  recover-Torn old new d q t =
      let c = boot-Committed d q t.valid in
      rw (recover-finish start d q) (record {
        valid = finish-IsLogDisk start size (header start d) (boot d q) c;
        contents = elim t.contents [
          | inl f ↦ inl (λ a h. finish-view start size (header start d) (boot d q) c a h ∙ f a h)
          | inr f ↦ inr (λ a h. finish-view start size (header start d) (boot d q) c a h ∙ f a h)
        ];
      })

  recoveries-Torn :
      (old new d : Disk) (qs : List ℕ)
      → Torn start size old new d
      → Torn start size old new (recoveries start d qs)
  unfolding recoveries
  recoveries-Torn old new d [] t = t
  recoveries-Torn old new d (q ∷ qs) t =
      recoveries-Torn old new (recover_from_log start (boot d q)).disk qs
        (recover-Torn old new d q t)

  -- All home blocks hold the old contents, or all hold the new, and the log is empty.
  pub record Whole (old new d : Disk) : Type 0 where
    pub empty : header start d ≡ []
    pub contents :
        ((a : ℕ) → IsHome start size a → d a ≡ old a)
        ⊎ ((a : ℕ) → IsHome start size a → d a ≡ new a)

  recover-Whole :
      (old new d : Disk) (q : ℕ)
      → size ≤ q
      → Torn start size old new d
      → Whole old new (recover_from_log start (boot d q)).disk
  recover-Whole old new d q p t =
      let (e, f) =
        finish-Installed start size (header start d) (boot d q) (boot-Committed d q t.valid)
          (omega (arith, t.valid.room)) in
      rw (recover-finish start d q) (record {
        empty = e;
        contents = elim t.contents [
          | inl g ↦ inl (λ a h. f a h ∙ g a h)
          | inr g ↦ inr (λ a h. f a h ∙ g a h)
        ];
      })

  -- When the power fails at any point of `commit`, then any number of times during recovery, a
  -- recovery that completes (`size` block writes are enough) leaves an empty log, and either every
  -- block outside the log as it was on the disk before the commit, or every one of them as the
  -- transaction left it in the cache.
  pub commit-atomic :
      (lh : List ℕ) (s : Store) (qs : List ℕ) (q : ℕ)
      → Ready start size lh s
      → size ≤ q
      → Whole s.disk s.cache
          (recover_from_log start (boot (recoveries start (commit start lh s).disk qs) q)).disk
  commit-atomic lh s qs q v p =
      recover-Whole s.disk s.cache (recoveries start (commit start lh s).disk qs) q p
        (recoveries-Torn s.disk s.cache (commit start lh s).disk qs (commit-Torn start size lh s v))

  -- When the power does not fail during its writes (two for each block and two for the header),
  -- `commit` leaves an empty log on the disk, and every block outside the log as the transaction
  -- left it in the cache.
  pub commit-durable :
      (lh : List ℕ) (s : Store)
      → Ready start size lh s
      → 2 * length lh + 2 ≤ s.power
      → (header start (commit start lh s).disk ≡ [])
        × ((a : ℕ) → IsHome start size a → (commit start lh s).disk a ≡ s.cache a)
  commit-durable [] s v p = rw (commit-nil start s) (v.empty, λ a h. sym (v.clean a refl))
  commit-durable (b ∷ bs) s v p =
      let w : Store = listed start size (b ∷ bs) s v in
      let (e, f) =
        finish-Installed start size (b ∷ bs) w
          (listed-Committed start size (b ∷ bs) s v (omega arith))
          (omega (
            arith,
            power-logged start size (b ∷ bs) s v,
            power-write_head start (b ∷ bs) (logged start size (b ∷ bs) s v),
          )) in
      rw (commit-cons start b bs s)
        (e, λ a h. f a h ∙ view-listed start size (b ∷ bs) s v (omega arith) a h)
