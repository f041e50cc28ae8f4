-- ===== src/Dir/Named.antt =====
-- `dirlookup` (fs.c) and the names of the entries.
use ele.Icache.{Icache}
use ele.Dir.{namecmp, beside, dirent_size, dirlookup}
use ele.Strings.{Bytes}
use ele.Base.{
  ℕ, zero, suc, ◌+◌, ◌%◌, ◌<◌, ◌≡◌, refl, sym, ap, ap₂, ◌∙◌, ◌≢◌, ◌↔◌, ◌⊎◌, inl, inr, Bool, true,
  false, none, [], ◌∷◌, arith, ◌==◌, if◌then◌else◌, Bool-cases, done, pos, negsuc, ℤ, eq_ℤ,
  load_short, subst, not, ◌&&◌,
}
use ele.Strings.Text.{text, strncmp-text}
use ele.Dir.Lookup.{IsDirectory, dirent_at, hit, dirlookup_hits, found_at}

-- The entry at `off` has a number and the name, each name cut at 14 bytes or its first NUL.
abbrev pub Named : (dp : ℕ) → (name : Bytes) → Icache → (off : ℕ) → Type 0
Named dp name c off =
    (load_short (dirent_at dp off c) 0 ≢ 0) × (text 14 0 name ≡ text 14 2 (dirent_at dp off c))

text_shift :
    (n p q : ℕ) (m m' : Bytes)
    → ((x : ℕ) → x < n → m (p + x) ≡ m' (q + x))
    → text n p m ≡ text n q m'
text_shift zero p q m m' h = refl
text_shift (suc n) p q m m' h =
    ap₂ (λ b xs. if b == 0 then [] else b ∷ xs)
      (ap m (omega arith) ∙ h 0 (omega arith) ∙ ap m' (omega arith))
      (text_shift n (p + 1) (q + 1) m m'
        (λ x l. ap m (omega arith) ∙ h (suc x) (omega (arith, l)) ∙ ap m' (omega arith)))

zero_only : (r : ℤ) → eq_ℤ r (pos 0) ≡ true → r ≡ pos 0
zero_only (pos n) e = ap pos (ground (arith, e))
zero_only (negsuc n) e = absurd (ground (arith, e))

eq_zero : (r : ℤ) → (eq_ℤ r (pos 0) ≡ true) ↔ (r ≡ pos 0)
eq_zero r = (zero_only r, λ q. subst (λ x. eq_ℤ x (pos 0) ≡ true) (sym q) refl)

both_true : (x : ℕ) (b : Bool) → ((not (x == 0) && b) ≡ true) ↔ ((x ≢ 0) × (b ≡ true))
both_true x b =
    (λ h. (λ z. ground (arith, h, z), ground (arith, h)), λ (n, e). ground (arith, n, e))

namecmp-text : (name e : Bytes) → (namecmp name e ≡ pos 0) ↔ (text 14 0 name ≡ text 14 2 e)
namecmp-text name e =
    let m = beside e name in
    let (there, back) = strncmp-text dirent_size 2 14 m in
    let wanted : text 14 dirent_size m ≡ text 14 0 name =
      text_shift 14 dirent_size 0 m name (λ x l. ground (arith, l)) in
    let has : text 14 2 m ≡ text 14 2 e = text_shift 14 2 2 m e (λ x l. ground (arith, l)) in
    (λ q. sym wanted ∙ there q ∙ has, λ q. back (wanted ∙ q ∙ sym has))

hit-Named :
    (dp : ℕ) (name : Bytes) (c : Icache) (off : ℕ)
    → (hit dp name c off ≡ true) ↔ Named dp name c off
hit-Named dp name c off =
    let e = dirent_at dp off c in
    let (split, join) = both_true (load_short e 0) (eq_ℤ (namecmp name e) (pos 0)) in
    let (there, back) = namecmp-text name e in
    let (zero_there, zero_back) = eq_zero (namecmp name e) in
    (
      λ h. let (ne, r) = split h in (ne, there (zero_there r)),
      λ (ne, q). join (ne, zero_back (back q)),
    )

pub absent_hit :
    (dp : ℕ) (name : Bytes) (c : Icache) (off : ℕ)
    → ¬ Named dp name c off
    → hit dp name c off ≡ false
absent_hit dp name c off no_name = elim (Bool-cases (hit dp name c off)) [
  | inr e ↦ e
  | inl e ↦ absurd (no_name ((hit-Named dp name c off).0 e))
]

not_Named :
    (dp : ℕ) (name : Bytes) (c : Icache) (off : ℕ)
    → hit dp name c off ≡ false
    → ¬ Named dp name c off
not_Named dp name c off e n = absurd (cc ((hit-Named dp name c off).1 n, e))

-- `dirlookup` in a directory changes nothing and finds nothing when no entry in use has the name, where
-- a name counts up to its first NUL and at most 14 bytes. Otherwise it finds the first that does: the
-- offset is that of the entry, and the inode is what `iget` gives for the number in it.
pub dirlookup-Finds :
    (devsw : ℕ → Bool) (dp : ℕ) (name de : Bytes) (c : Icache)
    → IsDirectory dp c
    → (((o : ℕ) → o < (c.entry dp).node.size → o % dirent_size ≡ 0 → ¬ Named dp name c o)
        × (dirlookup devsw dp name de c ≡ done (none, c)))
      ⊎ ((o : ℕ) × (o < (c.entry dp).node.size)
          × (o % dirent_size ≡ 0)
          × Named dp name c o
          × ((j : ℕ) → j < o → j % dirent_size ≡ 0 → ¬ Named dp name c j)
          × (dirlookup devsw dp name de c ≡ found_at dp c o))
dirlookup-Finds devsw dp name de c i = elim (dirlookup_hits devsw dp name de c i) [
  | inl (nothing, q) ↦ inl (λ o l a. not_Named dp name c o (nothing o (omega arith) l a), q)
  | inr (o, l, m, a, h, before, q) ↦ inr (
    o,
    m,
    a,
    (hit-Named dp name c o).0 h,
    λ j k b. not_Named dp name c j (before j (omega arith) k b),
    q,
  )
]
