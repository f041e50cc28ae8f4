-- ===== src/Log/Recovery.antt =====
-- From the commit point on: the log is installed and then cleared. This is the end of `commit`, and
-- it is `recover_from_log`. Whenever the power fails, the logical contents stay.
use ele.Log.Header.{get_header-put_header}
use ele.Log.Writes.{write_head-disk_ne, write_head-disk_self, write_head-off}
use ele.Log.Install.{
  install_trans-cache_ne, power-install_trans, not_mem-slot, install_trans-look,
  install_trans-disk_ne,
}
use ele.Log.Commit.{install_trans, put_header, write_head, get_header}
use ele.Log.Store.{Store, Disk}
use ele.Log.View.{IsHome, view, header, AllHome, header_lem, view_lem, look-not_mem, look-congr}
use ele.Base.{
  ℕ, ◌+◌, ◌-◌, ◌≤◌, ◌<◌, ◌≡◌, refl, sym, ap, ◌∙◌, ◌≢◌, ◌⊎◌, inl, inr, false, List, [], arith,
  dec_lt, Bool-cases, length, Distinct, mem,
}

-- `install_trans` and the `write_head` that clears the log.
abbrev pub finish : (start : ℕ) → List ℕ → Store → Store
finish start hs s = write_head start [] (install_trans start 0 hs s)

-- The header on the disk lists `hs`, and the log blocks are cached as they are on the disk.
pub record Committed (start size : ℕ) (hs : List ℕ) (s : Store) : Type 0 where
  pub listed : header start s.disk ≡ hs
  pub home : AllHome start size hs
  pub distinct : Distinct hs
  pub room : length hs < size
  pub fits : length hs < length (s.cache start)
  pub fits_disk : length hs < length (s.disk start)
  pub slots : (c : ℕ) → start < c → c ≤ start + length hs → s.cache c ≡ s.disk c

pub home-ne : (start size a : ℕ) → 0 < size → IsHome start size a → a ≢ start
home-ne start size a h (inl l) = omega arith
home-ne start size a h (inr l) = omega arith

module _ (start size : ℕ) (hs : List ℕ) (s : Store) (v : Committed start size hs s) where
  abbrev installed : Store
  installed = install_trans start 0 hs s

  spared : (c : ℕ) → start ≤ c → c ≤ start + length hs → mem c hs ≡ false
  spared c l m = not_mem-slot start size hs c v.home l (omega (arith, v.room))

  header-installed : header start installed.disk ≡ hs
  header-installed =
      header_lem start installed.disk
      ∙ ap get_header
          (install_trans-disk_ne start 0 hs s start (spared start (omega arith) (omega arith)))
      ∙ sym (header_lem start s.disk)
      ∙ v.listed

  -- Installing, even in part, leaves the logical contents.
  view-installed : (a : ℕ) → view start installed.disk a ≡ view start s.disk a
  view-installed a =
      view_lem start installed.disk hs a header-installed
      ∙ look-congr start installed.disk s.disk 0 hs a
          (λ c l m. install_trans-disk_ne start 0 hs s c (spared c (omega arith) (omega arith)))
          (elim (Bool-cases (mem a hs)) [
            | inl e ↦ inr e
            | inr e ↦ inl (install_trans-disk_ne start 0 hs s a e)
          ])
      ∙ sym (view_lem start s.disk hs a v.listed)

  -- A complete installation makes the logical contents the real ones.
  disk-installed : (a : ℕ) → length hs ≤ s.power → installed.disk a ≡ view start s.disk a
  disk-installed a p = elim (Bool-cases (mem a hs)) [
    | inl e ↦
        install_trans-look start size 0 hs s a (omega (arith, v.room)) p v.home v.distinct e
        ∙ look-congr start s.cache s.disk 0 hs a (λ c l m. v.slots c (omega arith) (omega arith))
            (inr e)
        ∙ sym (view_lem start s.disk hs a v.listed)
    | inr e ↦
        install_trans-disk_ne start 0 hs s a e
        ∙ sym (look-not_mem start s.disk 0 hs a e)
        ∙ sym (view_lem start s.disk hs a v.listed)
  ]

  cache-start : installed.cache start ≡ s.cache start
  cache-start = install_trans-cache_ne start 0 hs s start (spared start (omega arith) (omega arith))

  power-installed : installed.power ≡ s.power - length hs
  power-installed = power-install_trans start 0 hs s

  block-finish :
      length hs < s.power → (finish start hs s).disk start ≡ put_header [] (s.cache start)
  block-finish p =
      write_head-disk_self start [] installed (omega (arith, power-installed))
      ∙ ap (put_header []) cache-start

  header-finish : length hs < s.power → header start (finish start hs s).disk ≡ []
  header-finish p =
      header_lem start (finish start hs s).disk
      ∙ ap get_header (block-finish p)
      ∙ get_header-put_header [] (s.cache start) (omega (arith, v.fits))

  -- With power for every write the log is empty, and every home block has its logical content.
  pub finish-Installed :
      length hs < s.power
      → (header start (finish start hs s).disk ≡ [])
        × ((a : ℕ) → IsHome start size a → (finish start hs s).disk a ≡ view start s.disk a)
  finish-Installed p = (
    header-finish p,
    λ a h.
        write_head-disk_ne start [] installed a (home-ne start size a (omega (arith, v.room)) h)
        ∙ disk-installed a (omega arith),
  )

  -- Whenever the power fails, the logical contents of the home blocks are as before.
  pub finish-view :
      (a : ℕ) → IsHome start size a → view start (finish start hs s).disk a ≡ view start s.disk a
  finish-view a h = elim (dec_lt (length hs) s.power) [
    | yes p ↦
        view_lem start (finish start hs s).disk [] a (header-finish p)
        ∙ look-not_mem start (finish start hs s).disk 0 [] a refl
        ∙ (finish-Installed p).1 a h
    | no p ↦
        ap (λ (d : Disk). view start d a)
          (write_head-off start [] installed (omega (arith, power-installed)))
        ∙ view-installed a
  ]

  -- What the header block holds afterwards.
  pub finish-header :
      ((header start (finish start hs s).disk ≡ hs)
        × ((finish start hs s).disk start ≡ s.disk start))
      ⊎ ((header start (finish start hs s).disk ≡ [])
          × ((finish start hs s).disk start ≡ put_header [] (s.cache start)))
  finish-header = elim (dec_lt (length hs) s.power) [
    | yes p ↦ inr (header-finish p, block-finish p)
    | no p ↦
        let off : (finish start hs s).disk ≡ installed.disk =
          write_head-off start [] installed (omega (arith, power-installed)) in
        inl (
          ap (header start) off ∙ header-installed,
          ap (λ (d : Disk). d start) off
              ∙ install_trans-disk_ne start 0 hs s start (spared start (omega arith) (omega arith)),
        )
  ]
