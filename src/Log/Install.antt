-- ===== src/Log/Install.antt =====
-- `install_trans`, whatever power is left.
use ele.Log.Writes.{bwrite-cache_ne, bwrite-disk_ne, power-bwrite, bwrite-disk_self, bwrite-off}
use ele.Log.Store.{Store, Block, bread, bwrite}
use ele.Log.Commit.{install_trans}
use ele.Log.View.{AllHome, look, look-congr}
use ele.Base.{
  ℕ, suc, ◌+◌, ◌-◌, ◌≤◌, ◌<◌, ◌≡◌, refl, ◌∙◌, inl, inr, true, false, List, [], ◌∷◌, arith, ◌==◌,
  Bool-cases, length, Distinct, mem,
}

module _ (start : ℕ) where
  pub power-install_trans :
      (tail : ℕ) (bs : List ℕ) (s : Store)
      → (install_trans start tail bs s).power ≡ s.power - length bs
  unfolding install_trans
  power-install_trans tail [] s = omega arith
  power-install_trans tail (b ∷ bs) s =
      let v : Block = bread s (start + tail + 1) in
      omega (arith, power-install_trans (suc tail) bs (bwrite b v s), power-bwrite b v s)

  -- Only the listed blocks change.
  pub install_trans-disk_ne :
      (tail : ℕ) (bs : List ℕ) (s : Store) (a : ℕ)
      → mem a bs ≡ false
      → (install_trans start tail bs s).disk a ≡ s.disk a
  unfolding install_trans
  install_trans-disk_ne tail [] s a h = refl
  install_trans-disk_ne tail (b ∷ bs) s a h =
      install_trans-disk_ne (suc tail) bs (bwrite b (bread s (start + tail + 1)) s) a (ground arith)
      ∙ bwrite-disk_ne b (bread s (start + tail + 1)) s a (ground arith)

  pub install_trans-cache_ne :
      (tail : ℕ) (bs : List ℕ) (s : Store) (a : ℕ)
      → mem a bs ≡ false
      → (install_trans start tail bs s).cache a ≡ s.cache a
  unfolding install_trans
  install_trans-cache_ne tail [] s a h = refl
  install_trans-cache_ne tail (b ∷ bs) s a h =
      install_trans-cache_ne (suc tail) bs (bwrite b (bread s (start + tail + 1)) s) a
        (ground arith)
      ∙ bwrite-cache_ne b (bread s (start + tail + 1)) s a (ground arith)

  pub not_mem-slot :
      (size : ℕ) (bs : List ℕ) (c : ℕ)
      → AllHome start size bs
      → start ≤ c
      → c < start + size
      → mem c bs ≡ false
  not_mem-slot size [] c h l m = refl
  not_mem-slot size (b ∷ bs) c h l m = ground (arith, not_mem-slot size bs c h.1 l m)

  -- If the power lasts, every block has the content that the cached log gives it.
  pub install_trans-look :
      (size tail : ℕ) (bs : List ℕ) (s : Store) (a : ℕ)
      → tail + length bs < size
      → length bs ≤ s.power
      → AllHome start size bs
      → Distinct bs
      → mem a bs ≡ true
      → (install_trans start tail bs s).disk a ≡ look start s.cache tail bs a
  unfolding install_trans look bread
  install_trans-look size tail [] s a l p h u m = cc
  install_trans-look size tail (b ∷ bs) s a l p h u m = elim (Bool-cases (b == a)) [
    | inl e ↦
        let same : b ≡ a = ground arith in
        rw (e, ← same)
          (install_trans-disk_ne (suc tail) bs s' b u.0
            ∙ bwrite-disk_self b (s.cache (start + tail + 1)) s (omega arith))
    | inr e ↦ rw e (
        install_trans-look size (suc tail) bs s' a (omega arith)
          (omega (arith, power-bwrite b (s.cache (start + tail + 1)) s)) h.1 u.1 (ground arith)
        ∙ look-congr start s'.cache s.cache (suc tail) bs a
            (λ c x y. bwrite-cache_ne b (s.cache (start + tail + 1)) s c (omega arith))
            (inl (bwrite-cache_ne b (s.cache (start + tail + 1)) s a (ground arith))))
  ]
    where
      s' : Store
      s' = bwrite b (s.cache (start + tail + 1)) s

  -- Without power nothing is installed.
  pub install_trans-off :
      (tail : ℕ) (bs : List ℕ) (s : Store)
      → s.power ≡ 0
      → (install_trans start tail bs s).disk ≡ s.disk
  unfolding install_trans
  install_trans-off tail [] s e = refl
  install_trans-off tail (b ∷ bs) s e =
      let w : Block = bread s (start + tail + 1) in
      install_trans-off (suc tail) bs (bwrite b w s) (omega (arith, power-bwrite b w s))
      ∙ bwrite-off b w s e
