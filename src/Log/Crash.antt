-- ===== src/Log/Crash.antt =====
-- A crash at any point of `commit`, and at any points of the recoveries that follow, loses no
-- transaction and tears none.
use ele.Log.Install.{power-install_trans, install_trans-off}
use ele.Log.Header.{get_header-put_header, length-put_header}
use ele.Log.Recovery.{Committed, finish, finish-header, finish-view, home-ne}
use ele.Log.Commit.{commit, put_header, write_head, write_log, get_header, install_trans}
use ele.Log.View.{
  AllHome, Copied, IsHome, header, Copied-agree, view, header_lem, view_lem, look-not_mem,
  look-congr, look-Copied,
}
use ele.Log.Writes.{
  power-write_log, write_head-cache_ne, write_log-disk_ne, write_log-cache_ne, write_head-disk_self,
  write_log-disk-Copied, write_head-cache_self, write_log-cache-Copied, write_head-disk_ne,
  power-write_head, write_head-off,
}
use ele.Log.Store.{Disk, Store, Block}
use ele.Base.{
  ℕ, ◌+◌, ◌-◌, ◌≤◌, ◌<◌, ◌≡◌, refl, sym, ap, ◌∙◌, ◌⊎◌, inl, inr, false, List, [], ◌∷◌, arith,
  dec_lt, Bool-cases, length, Distinct, mem,
}

-- What is known of the machine when `commit` is called for the blocks `lh`.
pub record Ready (start size : ℕ) (lh : List ℕ) (s : Store) : Type 0 where
  pub empty : header start s.disk ≡ []
  pub home : AllHome start size lh
  pub distinct : Distinct lh
  pub room : length lh < size
  pub fits : length lh < length (s.cache start)
  pub fits_disk : 0 < length (s.disk start)
  pub clean : (a : ℕ) → mem a lh ≡ false → s.cache a ≡ s.disk a

-- What is known of a disk on which the kernel starts.
pub record IsLogDisk (start size : ℕ) (d : Disk) : Type 0 where
  pub home : AllHome start size (header start d)
  pub distinct : Distinct (header start d)
  pub room : length (header start d) < size
  pub fits : length (header start d) < length (d start)

module _ (start size : ℕ) (lh : List ℕ) (s : Store) (v : Ready start size lh s) where
  abbrev pub logged : Store
  logged = write_log start 0 lh s

  abbrev pub listed : Store
  listed = write_head start lh logged

  pub power-logged : logged.power ≡ s.power - length lh
  power-logged = power-write_log start 0 lh s

  disk-logged : (a : ℕ) → IsHome start size a → logged.disk a ≡ s.disk a
  disk-logged a h = write_log-disk_ne start 0 lh s a (omega (arith, v.room))

  start-logged : (logged.disk start ≡ s.disk start) × (logged.cache start ≡ s.cache start)
  start-logged = (
    write_log-disk_ne start 0 lh s start (omega arith),
    write_log-cache_ne start 0 lh s start (omega arith),
  )

  -- Before the header is written the transaction does not exist.
  header-logged : header start logged.disk ≡ []
  header-logged =
      header_lem start logged.disk
      ∙ ap get_header start-logged.0
      ∙ sym (header_lem start s.disk)
      ∙ v.empty

  view-logged : (a : ℕ) → IsHome start size a → view start logged.disk a ≡ s.disk a
  view-logged a h =
      view_lem start logged.disk [] a header-logged
      ∙ look-not_mem start logged.disk 0 [] a refl
      ∙ disk-logged a h

  -- Once it is written the transaction is there.
  module _ (on : length lh < s.power) where
    start-listed : listed.disk start ≡ put_header lh (s.cache start)
    start-listed =
        write_head-disk_self start lh logged (omega (arith, power-logged))
        ∙ ap (put_header lh) start-logged.1

    header-listed : header start listed.disk ≡ lh
    header-listed =
        header_lem start listed.disk
        ∙ ap get_header start-listed
        ∙ get_header-put_header lh (s.cache start) v.fits

    disk-Copied : Copied start logged.disk s.cache 0 lh
    disk-Copied =
        write_log-disk-Copied start size 0 lh s (omega (arith, v.room)) (omega arith) v.home

    listed-slots : (c : ℕ) → start < c → c ≤ start + length lh → listed.cache c ≡ listed.disk c
    listed-slots c l m =
        write_head-cache_ne start lh logged c (omega arith)
        ∙ Copied-agree start logged.cache logged.disk s.cache 0 lh c
            (write_log-cache-Copied start size 0 lh s (omega (arith, v.room)) v.home) disk-Copied
            (omega arith) (omega arith)
        ∙ sym (write_head-disk_ne start lh logged c (omega arith))

    pub listed-Committed : Committed start size lh listed
    listed-Committed = record {
      listed = header-listed;
      home = v.home;
      distinct = v.distinct;
      room = v.room;
      fits = omega (
        arith,
        v.fits,
        ap (λ (b : Block). length b) (write_head-cache_self start lh logged),
        length-put_header lh (logged.cache start),
        ap (λ (b : Block). length b) start-logged.1,
      );
      fits_disk = omega (
        arith,
        v.fits,
        ap (λ (b : Block). length b) start-listed,
        length-put_header lh (s.cache start),
      );
      slots = listed-slots;
    }

    pub view-listed : (a : ℕ) → IsHome start size a → view start listed.disk a ≡ s.cache a
    view-listed a h =
        view_lem start listed.disk lh a header-listed
        ∙ look-congr start listed.disk logged.disk 0 lh a
            (λ c l m. write_head-disk_ne start lh logged c (omega arith))
            (inl (
              write_head-disk_ne start lh logged a
                (home-ne start size a (omega (arith, v.room)) h)))
        ∙ look-Copied start logged.disk s.cache 0 lh a disk-Copied (elim (Bool-cases (mem a lh)) [
          | inl e ↦ inr e
          | inr e ↦ inl (disk-logged a h ∙ sym (v.clean a e))
        ])

pub commit-nil : (start : ℕ) (s : Store) → commit start [] s ≡ s
unfolding commit
commit-nil start s = refl

pub commit-cons :
    (start b : ℕ) (bs : List ℕ) (s : Store)
    → commit start (b ∷ bs) s
      ≡ finish start (b ∷ bs) (write_head start (b ∷ bs) (write_log start 0 (b ∷ bs) s))
unfolding commit
commit-cons start b bs s = ground arith

-- A disk as a crash leaves it: a valid log over the old or over the new contents.
pub record Torn (start size : ℕ) (old new d : Disk) : Type 0 where
  pub valid : IsLogDisk start size d
  pub contents :
      ((a : ℕ) → IsHome start size a → view start d a ≡ old a)
      ⊎ ((a : ℕ) → IsHome start size a → view start d a ≡ new a)

empty-IsLogDisk :
    (start size : ℕ) (d : Disk)
    → 0 < size
    → header start d ≡ []
    → 0 < length (d start)
    → IsLogDisk start size d
empty-IsLogDisk start size d h e f = record {
  home = rw e tt;
  distinct = rw e tt;
  room = rw e h;
  fits = rw e f;
}

-- What is left of a committed transaction is a valid log, over the same logical contents.
pub finish-IsLogDisk :
    (start size : ℕ) (hs : List ℕ) (s : Store)
    → Committed start size hs s
    → IsLogDisk start size (finish start hs s).disk
finish-IsLogDisk start size hs s v = elim (finish-header start size hs s v) [
  | inl (e, q) ↦ record {
    home = rw e v.home;
    distinct = rw e v.distinct;
    room = rw e v.room;
    fits = rw (e, q) v.fits_disk;
  }
  | inr (e, q) ↦
      empty-IsLogDisk start size (finish start hs s).disk (omega (arith, v.room)) e
        (rw q (omega (arith, v.fits, length-put_header [] (s.cache start))))
]

module _ (start size : ℕ) where
  crash-early :
      (lh : List ℕ) (s : Store)
      → Ready start size lh s
      → s.power ≤ length lh
      → (finish start lh (write_head start lh (write_log start 0 lh s))).disk
        ≡ (write_log start 0 lh s).disk
  crash-early lh s v p =
      let w : Store = write_log start 0 lh s in
      let h : Store = write_head start lh w in
      let i : Store = install_trans start 0 lh h in
      let off : w.power ≡ 0 = omega (arith, power-logged start size lh s v) in
      let off' : h.power ≡ 0 = omega (arith, power-write_head start lh w) in
      write_head-off start [] i (omega (arith, power-install_trans start 0 lh h))
      ∙ install_trans-off start 0 lh h off'
      ∙ write_head-off start lh w off

  pub commit-Torn :
      (lh : List ℕ) (s : Store)
      → Ready start size lh s
      → Torn start size s.disk s.cache (commit start lh s).disk
  commit-Torn [] s v = rw (commit-nil start s) (record {
    valid = empty-IsLogDisk start size s.disk (omega (arith, v.room)) v.empty v.fits_disk;
    contents =
        inl (λ a h. view_lem start s.disk [] a v.empty ∙ look-not_mem start s.disk 0 [] a refl);
  })
  commit-Torn (b ∷ bs) s v = elim (dec_lt (length (b ∷ bs)) s.power) [
    | yes p ↦
        let c = listed-Committed start size (b ∷ bs) s v p in
        rw (commit-cons start b bs s) (record {
          valid = finish-IsLogDisk start size (b ∷ bs) (listed start size (b ∷ bs) s v) c;
          contents = inr (λ a h.
              finish-view start size (b ∷ bs) (listed start size (b ∷ bs) s v) c a h
              ∙ view-listed start size (b ∷ bs) s v p a h);
        })
    | no p ↦
        rw (commit-cons start b bs s, crash-early (b ∷ bs) s v (omega arith))
          (record {
            valid =
                empty-IsLogDisk start size (write_log start 0 (b ∷ bs) s).disk
                  (omega (arith, v.room)) (header-logged start size (b ∷ bs) s v)
                  (rw (start-logged start size (b ∷ bs) s v).0 v.fits_disk);
            contents = inl (view-logged start size (b ∷ bs) s v);
          })
  ]
