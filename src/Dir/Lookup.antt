-- ===== src/Dir/Lookup.antt =====
-- What `dirlookup` (fs.c) finds.
use mathlib.Core.Path.{fun_ext}
use ele.Inode.Disk.{load_short-congr}
use ele.Base.{
  zero, suc, inl, inr, refl, ℕ, ◌+◌, ◌%◌, ◌<◌, ◌≡◌, ap, ◌∙◌, Bool, ◌&&◌, not, arith, ltb, ◌==◌,
  Bool-cases, done, pos, store, load_short, ltb→lt, ==_iff, eq_ℤ, Outcome, Option, ◌≤◌, false,
  ◌>>=◌, none, ◌⊎◌, some, true, ap₂, subst, sym, if◌then◌else◌,
}
use ele.Dir.{
  read_entry, beside, namecmp, t_dir, dirent_size, dirlookup_loop, iget, strncmp, next_off,
  dirlookup,
}
use ele.Icache.{Icache, iget}
use ele.Inode.Write.{IsFile}
use ele.Inode.Read.{readi-byte}
use ele.Inode.Content.{byte}
use ele.Strings.{Bytes, strncmp}

-- A directory: a file with whole entries.
pub record IsDirectory (dp : ℕ) (c : Icache) : Type 0 where
  pub file : IsFile (c.entry dp).node c.fs
  pub typed : (c.entry dp).node.type ≡ t_dir
  pub entries : (c.entry dp).node.size % dirent_size ≡ 0

-- The bytes of the directory from `off` on.
abbrev pub dirent_at : (dp off : ℕ) → Icache → Bytes
dirent_at dp off c x = byte (c.entry dp).node c.fs (off + x)

-- The entry at `off` is in use and has the name.
abbrev pub hit : (dp : ℕ) → (name : Bytes) → Icache → (off : ℕ) → Bool
hit dp name c off =
    not (load_short (dirent_at dp off c) 0 == 0) && eq_ℤ (namecmp name (dirent_at dp off c)) (pos 0)

store_same : {A : Type 0} (m : ℕ → A) (p : ℕ) → store m p (m p) ≡ m
unfolding store
store_same m p =
    fun_ext
      λ a. elim (Bool-cases (p == a)) [ inl e ↦ rw e (ap m ((==_iff p a).0 e)) | inr e ↦ rw e refl ]

pub beside-congr :
    (de de' name : Bytes)
    → ((x : ℕ) → x < dirent_size → de x ≡ de' x)
    → beside de name ≡ beside de' name
beside-congr de de' name h = fun_ext λ x. elim (Bool-cases (ltb x dirent_size)) [
  | inl e ↦ rw e (h x (ltb→lt x dirent_size e))
  | inr e ↦ rw e refl
]

-- Reading a whole entry gives its bytes and changes nothing.
pub read_entry-bytes :
    (devsw : ℕ → Bool) (dp off : ℕ) (de : Bytes) (c : Icache)
    → IsDirectory dp c
    → off % dirent_size ≡ 0
    → off < (c.entry dp).node.size
    → (de' : Bytes) × (read_entry devsw dp off de c ≡ done (de', c))
      × ((x : ℕ) → x < dirent_size → de' x ≡ dirent_at dp off c x)
unfolding read_entry
read_entry-bytes devsw dp off de c i aligned l =
    let ip = (c.entry dp).node in
    let top = i.file.bounded in
    let (de', count, q, n, all) =
      readi-byte devsw off dirent_size de ip c.fs i.file (λ e. ground (arith, e, i.typed))
        (omega (arith, l)) (omega (arith, l, top)) in
    let whole : count ≡ dirent_size = ground (arith, n, aligned, l, i.entries) in
    (
      de',
      rw (read_entry, q, whole)
          (ap (λ e. done (de', record { entry = e; fs = c.fs })) (store_same c.entry dp)),
      λ x m. all x ∙ ground (arith, m, whole),
    )

-- The result where the entry at `off` with the number `n` is the one.
abbrev pub found_num : (dp : ℕ) → Icache → (off n : ℕ) → Outcome (Option (ℕ × ℕ) × Icache)
found_num dp c off n = iget (c.entry dp).dev n c >>= λ (i, u). done (some (off, i), u)

abbrev pub found_at : (dp : ℕ) → Icache → (off : ℕ) → Outcome (Option (ℕ × ℕ) × Icache)
found_at dp c off = found_num dp c off (load_short (dirent_at dp off c) 0)

-- What a search from `off` on gives.
abbrev pub Finds :
    (dp : ℕ) (name : Bytes) (c : Icache) (off : ℕ) (r : Outcome (Option (ℕ × ℕ) × Icache)) → Type 0
Finds dp name c off r =
    (((o : ℕ)
        → off ≤ o
        → o < (c.entry dp).node.size
        → o % dirent_size ≡ 0
        → hit dp name c o ≡ false)
      × (r ≡ done (none, c)))
    ⊎ ((o : ℕ) × (off ≤ o)
        × (o < (c.entry dp).node.size)
        × (o % dirent_size ≡ 0)
        × (hit dp name c o ≡ true)
        × ((j : ℕ) → off ≤ j → j < o → j % dirent_size ≡ 0 → hit dp name c j ≡ false)
        × (r ≡ found_at dp c o))

Finds-later :
    (dp : ℕ) (name : Bytes) (c : Icache) (off off' : ℕ) (r : Outcome (Option (ℕ × ℕ) × Icache))
    → off' ≡ off + dirent_size
    → off % dirent_size ≡ 0
    → hit dp name c off ≡ false
    → Finds dp name c off' r
    → Finds dp name c off r
Finds-later dp name c off off' r next aligned no_hit rest =
    let here : (o : ℕ)
        → off ≤ o
        → o % dirent_size ≡ 0
        → (off' ≤ o → hit dp name c o ≡ false)
        → hit dp name c o ≡ false =
      λ o l a later. elim (Bool-cases (off == o)) [
        | inl q ↦ subst (λ x. hit dp name c x ≡ false) ((==_iff off o).0 q) no_hit
        | inr q ↦ later (ground (arith, next, aligned, a, l, q))
      ] in
    elim rest [
      | inl (none_here, q) ↦ inl (λ o l m a. here o l a (λ k. none_here o k m a), q)
      | inr (o, l, m, a, t, before, q) ↦
          inr (o, omega (arith, l, next), m, a, t, λ j k n b. here j k b (λ g. before j g n b), q)
    ]

-- What a round gives after its test.
abbrev round_result :
    (devsw : ℕ → Bool) (fuel off dp : ℕ)
    → (name de : Bytes) → Icache
    → Bool
    → Outcome (Option (ℕ × ℕ) × Icache)
round_result devsw fuel off dp name de c b = elim b [
  | false ↦ dirlookup_loop devsw fuel (next_off off) dp name de c
  | true ↦ found_num dp c off (load_short de 0)
]

-- A round of the loop that reads `de'`.
dirlookup_loop_round :
    (devsw : ℕ → Bool) (fuel off dp : ℕ) (name de de' : Bytes) (c : Icache) (b : Bool)
    → ltb off (c.entry dp).node.size ≡ true
    → read_entry devsw dp off de c ≡ done (de', c)
    → (not (load_short de' 0 == 0) && eq_ℤ (namecmp name de') (pos 0)) ≡ b
    → dirlookup_loop devsw (suc fuel) off dp name de c ≡ (
        if b
        then found_num dp c off (load_short de' 0)
        else dirlookup_loop devsw fuel (next_off off) dp name de' c)
unfolding dirlookup_loop
dirlookup_loop_round devsw fuel off dp name de de' c true e run t =
    rw (dirlookup_loop, e, run) (ap (λ x. round_result devsw fuel off dp name de' c x) t)
dirlookup_loop_round devsw fuel off dp name de de' c false e run t =
    rw (dirlookup_loop, e, run) (ap (λ x. round_result devsw fuel off dp name de' c x) t)

dirlookup_loop-Finds :
    (devsw : ℕ → Bool) (fuel off dp : ℕ) (name de : Bytes) (c : Icache)
    → IsDirectory dp c
    → off % dirent_size ≡ 0
    → off ≤ (c.entry dp).node.size
    → (c.entry dp).node.size < fuel + off
    → Finds dp name c off (dirlookup_loop devsw fuel off dp name de c)
unfolding dirlookup_loop
dirlookup_loop-Finds devsw zero off dp name de c i aligned l h = absurd (omega (arith, l, h))
dirlookup_loop-Finds devsw (suc fuel) off dp name de c i aligned l h =
    let size = (c.entry dp).node.size in
    elim (Bool-cases (ltb off size)) [
      | inr e ↦ inl (λ o a b. absurd (ground (arith, a, b, e)), rw (dirlookup_loop, e) refl)
      | inl e ↦
          let below = ltb→lt off size e in
          let (de', run, same) = read_entry-bytes devsw dp off de c i aligned below in
          let num : load_short de' 0 ≡ load_short (dirent_at dp off c) 0 =
            load_short-congr de' (dirent_at dp off c) 0 (λ x a b. same x (omega (arith, b))) in
          let cmp : namecmp name de' ≡ namecmp name (dirent_at dp off c) =
            ap (strncmp dirent_size 2 14) (beside-congr de' (dirent_at dp off c) name same) in
          let test : (not (load_short de' 0 == 0) && eq_ℤ (namecmp name de') (pos 0))
              ≡ hit dp name c off =
            ap₂ (λ n r. not (n == 0) && eq_ℤ r (pos 0)) num cmp in
          elim (Bool-cases (hit dp name c off)) [
            | inl t ↦ inr (
              off,
              omega arith,
              below,
              aligned,
              t,
              λ j a b. absurd (omega (arith, a, b)),
              dirlookup_loop_round devsw fuel off dp name de de' c true e run (test ∙ t)
                  ∙ ap (found_num dp c off) num,
            )
            | inr t ↦
                let next : next_off off ≡ off + dirent_size =
                  omega (arith, below, i.file.bounded) in
                let step : off + dirent_size ≤ size = omega (arith, below, aligned, i.entries) in
                let rest =
                  dirlookup_loop-Finds devsw fuel (next_off off) dp name de' c i
                    (omega (arith, next, aligned)) (omega (arith, next, step))
                    (omega (arith, next, h)) in
                subst (Finds dp name c off)
                  (sym
                    (dirlookup_loop_round devsw fuel off dp name de de' c false e run (test ∙ t)))
                  (Finds-later dp name c off (next_off off)
                    (dirlookup_loop devsw fuel (next_off off) dp name de' c) next aligned t rest)
          ]
    ]

-- The whole search.
pub dirlookup_hits :
    (devsw : ℕ → Bool) (dp : ℕ) (name de : Bytes) (c : Icache)
    → IsDirectory dp c
    → Finds dp name c 0 (dirlookup devsw dp name de c)
unfolding dirlookup
dirlookup_hits devsw dp name de c i =
    let typed : ((c.entry dp).node.type == t_dir) ≡ true = ground (arith, i.typed) in
    rw (dirlookup, typed)
      (dirlookup_loop-Finds devsw ((c.entry dp).node.size + 1) 0 dp name de c i (omega arith)
        (omega arith) (omega arith))
