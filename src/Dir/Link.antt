-- ===== src/Dir/Link.antt =====
-- `dirlink` (fs.c), and `dirlookup` after it.
use ele.Inode.Disk.{load_short-congr}
use ele.Base.{
  ℕ, zero, suc, ◌+◌, ◌/◌, ◌%◌, ◌≤◌, ◌<◌, ◌≡◌, refl, sym, ap, ◌∙◌, inl, inr, Bool, true, false,
  arith, ltb, ◌==◌, if◌then◌else◌, Bool-cases, get_or, Outcome, done, pos, load_short, ltb→lt,
  ==_iff, store_short, store, List, ap₂, none, ◌-◌, panic, [], ◌*◌, ◌∷◌, leb, ◌&&◌,
}
use ele.Dir.{
  dirlookup, dirlink, empty_loop, read_entry, next_off, dirent_size, put_entry, beside, namecmp,
}
use ele.Dir.Lookup.{IsDirectory, read_entry-bytes, dirent_at}
use ele.Icache.{Icache}
use ele.Inode.{Inode, writei, moved}
use ele.Fs.{Fs}
use ele.Strings.{Bytes, strncmp}
use ele.Strings.Text.{text-cons, text, strncpy-padded, padded}

-- A round of the loop of `dirlink` that reads `de'`.
abbrev empty_result :
    (devsw : ℕ → Bool) (fuel off dp : ℕ)
    → (de : Bytes) → Icache
    → Bool
    → Outcome (ℕ × Bytes × Icache)
empty_result devsw fuel off dp de c b = elim b [
  | true ↦ done (off, de, c)
  | false ↦ empty_loop devsw fuel (next_off off) dp de c
]

empty_loop_round :
    (devsw : ℕ → Bool) (fuel off dp : ℕ) (de de' : Bytes) (c : Icache) (b : Bool)
    → ltb off (c.entry dp).node.size ≡ true
    → read_entry devsw dp off de c ≡ done (de', c)
    → (load_short de' 0 == 0) ≡ b
    → empty_loop devsw (suc fuel) off dp de c ≡ empty_result devsw fuel off dp de' c b
unfolding empty_loop
empty_loop_round devsw fuel off dp de de' c b e run t =
    rw (empty_loop, e, run) (ap (empty_result devsw fuel off dp de' c) t)

-- The loop ends at an entry that is not in use, or behind the last one.
pub empty_loop-ends :
    (devsw : ℕ → Bool) (fuel off dp : ℕ) (de : Bytes) (c : Icache)
    → IsDirectory dp c
    → off % dirent_size ≡ 0
    → off ≤ (c.entry dp).node.size
    → (c.entry dp).node.size < fuel + off
    → (o : ℕ) × (de' : Bytes) × (empty_loop devsw fuel off dp de c ≡ done (o, de', c))
      × (o % dirent_size ≡ 0)
      × (o ≤ (c.entry dp).node.size)
      × (o < (c.entry dp).node.size → load_short (dirent_at dp o c) 0 ≡ 0)
unfolding empty_loop
empty_loop-ends devsw zero off dp de c i aligned l h = absurd (omega (arith, l, h))
empty_loop-ends devsw (suc fuel) off dp de c i aligned l h =
    let size = (c.entry dp).node.size in
    elim (Bool-cases (ltb off size)) [
      | inr e ↦ (off, de, rw (empty_loop, e) refl, aligned, l, λ m. absurd (ground (arith, m, e)))
      | inl e ↦
          let below = ltb→lt off size e in
          let (de', run, same) = read_entry-bytes devsw dp off de c i aligned below in
          let num : load_short de' 0 ≡ load_short (dirent_at dp off c) 0 =
            load_short-congr de' (dirent_at dp off c) 0 (λ x a b. same x (omega (arith, b))) in
          elim (Bool-cases (load_short de' 0 == 0)) [
            | inl t ↦ (
              off,
              de',
              empty_loop_round devsw fuel off dp de de' c true e run t,
              aligned,
              l,
              λ m. sym num ∙ (==_iff (load_short de' 0) 0).0 t,
            )
            | inr t ↦
                let next : next_off off ≡ off + dirent_size =
                  omega (arith, below, i.file.bounded) in
                let step : off + dirent_size ≤ size = omega (arith, below, aligned, i.entries) in
                let (o, de2, q, at, within, free) =
                  empty_loop-ends devsw fuel (next_off off) dp de' c i
                    (omega (arith, next, aligned)) (omega (arith, next, step))
                    (omega (arith, next, h)) in
                (
                  o,
                  de2,
                  empty_loop_round devsw fuel off dp de de' c false e run t ∙ q,
                  at,
                  within,
                  free,
                )
          ]
    ]

-- A text that was copied with NULs behind it compares as the same.
strncmp-copied :
    (n p q : ℕ) (m : Bytes)
    → ((i : ℕ) → i < n → m (q + i) ≡ get_or (text n p m) i 0)
    → strncmp p q n m ≡ pos 0
unfolding strncmp
strncmp-copied zero p q m h = refl
strncmp-copied (suc n) p q m h =
    let first = h 0 (omega arith) in
    elim (Bool-cases (m p == 0)) [
      | inl e ↦ ground (arith, e, first)
      | inr e ↦
          let same : m q ≡ m p = ground (arith, e, first) in
          let rest = strncmp-copied n (p + 1) (q + 1) m (λ i l.
            ap m (omega arith)
            ∙ h (suc i) (omega (arith, l))
            ∙ ap (λ xs. get_or xs (suc i) 0) (text-cons n p m e)) in
          ground (arith, e, same, rest)
    ]

-- The entry that `dirlink` writes.
put_entry-bytes :
    (name de : Bytes) (inum x : ℕ)
    → put_entry name de inum x ≡ (
        if x == 0
        then inum % 256
        else if x == 1
        then inum / 256 % 256
        else padded 2 14 (text 14 dirent_size (beside de name)) (beside de name) x)
unfolding store_short store
put_entry-bytes name de inum x =
    let copied = strncpy-padded 2 dirent_size 14 (beside de name) (omega arith) in
    ground (arith, ap (λ m. m x) copied)

entry_byte :
    (i : ℕ) (xs : List ℕ) (m : Bytes) (a b : ℕ)
    → i < 14
    → (if 2 + i == 0 then a else if 2 + i == 1 then b else padded 2 14 xs m (2 + i)) ≡ get_or xs i 0
entry_byte i xs m a b l =
    let index : 2 + i - 2 ≡ i = omega arith in
    let inside : (leb 2 (2 + i) && ltb (2 + i) 16) ≡ true = ground (arith, l) in
    let not_zero : (2 + i == 0) ≡ false = ground arith in
    let not_one : (2 + i == 1) ≡ false = ground arith in
    rw (not_zero, not_one, inside) (ap (λ j. get_or xs j 0) index)

text-congr :
    (n p : ℕ) (m m' : Bytes) → ((x : ℕ) → p ≤ x → x < p + n → m x ≡ m' x) → text n p m ≡ text n p m'
text-congr zero p m m' h = refl
text-congr (suc n) p m m' h =
    ap₂ (λ b xs. if b == 0 then [] else b ∷ xs) (h p (omega arith) (omega arith))
      (text-congr n (p + 1) m m' (λ x a b. h x (omega (arith, a)) (omega (arith, b))))

-- The entry written has the name and the number.
module _ (name de entry : Bytes) (inum : ℕ) where
  pub written-name :
      ((x : ℕ) → x < dirent_size → entry x ≡ put_entry name de inum x) → namecmp name entry ≡ pos 0
  written-name same =
      let m = beside entry name in
      let names : text 14 dirent_size (beside de name) ≡ text 14 dirent_size m =
        text-congr 14 dirent_size (beside de name) m (λ x a b. ground (arith, a)) in
      strncmp-copied 14 dirent_size 2 m (λ i l.
        let inside : m (2 + i) ≡ entry (2 + i) = ground (arith, l) in
        inside
        ∙ same (2 + i) (omega (arith, l))
        ∙ put_entry-bytes name de inum (2 + i)
        ∙ entry_byte i (text 14 dirent_size (beside de name)) (beside de name) (inum % 256)
            (inum / 256 % 256) l
        ∙ ap (λ xs. get_or xs i 0) names)

  pub written-number :
      ((x : ℕ) → x < dirent_size → entry x ≡ put_entry name de inum x)
      → inum < 65536
      → load_short entry 0 ≡ inum
  unfolding load_short
  written-number same l =
      ap₂ (λ a b. a + 256 * b) (same 0 (omega arith) ∙ put_entry-bytes name de inum 0)
        (same 1 (omega arith) ∙ put_entry-bytes name de inum 1)
      ∙ omega (arith, l)

-- The runs of `dirlink` for a name that is not there.
pub dirlink_panics :
    (devsw : ℕ → Bool) (dp o inum : ℕ) (name de de' : Bytes) (c : Icache)
    → dirlookup devsw dp name de c ≡ done (none, c)
    → empty_loop devsw ((c.entry dp).node.size + 1) 0 dp de c ≡ done (o, de', c)
    → writei devsw (c.entry dp).node (put_entry name de' inum) o dirent_size c.fs ≡ panic
    → dirlink devsw dp name de inum c ≡ panic
unfolding dirlink
dirlink_panics devsw dp o inum name de de' c q r w = rw (dirlink, q, r, w) refl

-- The table after the entry was written.
abbrev pub linked : ℕ → Icache → (ip : Inode) → (t : Fs) → Icache
linked dp c ip t = record { entry = store c.entry dp (record (c.entry dp) { node = ip }); fs = t }

pub dirlink_returns :
    (devsw : ℕ → Bool) (dp o inum : ℕ) (name de de' : Bytes) (c : Icache) (ip : Inode) (t : Fs)
    → dirlookup devsw dp name de c ≡ done (none, c)
    → empty_loop devsw ((c.entry dp).node.size + 1) 0 dp de c ≡ done (o, de', c)
    → writei devsw (c.entry dp).node (put_entry name de' inum) o dirent_size c.fs
      ≡ done (moved dirent_size, ip, t)
    → dirlink devsw dp name de inum c ≡ done (true, linked dp c ip t)
unfolding dirlink
dirlink_returns devsw dp o inum name de de' c ip t q r w = rw (dirlink, q, r, w) refl
