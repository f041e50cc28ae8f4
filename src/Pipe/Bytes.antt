-- ===== src/Pipe/Bytes.antt =====
-- What a pass of `pipewrite` and of `piperead` (pipe.c) does to the bytes in a valid pipe.
use ele.Pipe.Window.{
  IsValid, used, contents, is_full_iff, used-put_byte, put_byte-IsValid, contents-put_byte, used_lt,
  window, empty_iff, contents-pass_byte, used_pos, pass_byte-IsValid,
}
use ele.Pipe.{
  returned, failed, slept, Pipe, pipe_size, Writing, pipewrite, put_byte, is_full, readers,
  piperead, pass_byte, copy_out, Reading, get_byte, writers,
}
use ele.Base.{
  ℕ, zero, suc, ◌-◌, ◌<◌, ◌≡◌, refl, sym, ap, ◌∙◌, ◌≢◌, ◌⊎◌, inl, inr, Bool, true, false, ◌&&◌,
  ◌||◌, not, none, some, List, [], ◌∷◌, ◌++◌, arith, leb, ◌==◌, if◌then◌else◌, Bool-cases, length,
  take, drop,
}

-- The free bytes of the ring.
abbrev pub room : Pipe → ℕ
room p = pipe_size - used p

-- What becomes of `bs` in a pass of `pipewrite`.
pub record Fills (killed : Bool) (bs : List ℕ) (p : Pipe) (w : Writing) : Type 0 where
  pub valid : IsValid w.pipe
  pub filled : contents w.pipe ≡ contents p ++ take (room p) bs
  pub left : w.rest ≡ drop (room p) bs
  pub ends : w.status ≡ (
      if leb (length bs) (room p)
      then returned
      else (if not p.read_open || killed then failed else slept))
  pub woken : (w.status ≡ failed) ⊎ (w.wakes ≡ some readers)
  pub flags : (w.pipe.read_open ≡ p.read_open) × (w.pipe.write_open ≡ p.write_open)

pub append_nil : (xs : List ℕ) → xs ++ [] ≡ xs
append_nil [] = refl
append_nil (x ∷ xs) = ap (λ w. x ∷ w) (append_nil xs)

pub append_assoc : (xs ys zs : List ℕ) → (xs ++ ys) ++ zs ≡ xs ++ (ys ++ zs)
append_assoc [] ys zs = refl
append_assoc (x ∷ xs) ys zs = ap (λ w. x ∷ w) (append_assoc xs ys zs)

pub take-nil : (n : ℕ) → take {A = ℕ} n [] ≡ []
take-nil zero = refl
take-nil (suc n) = refl

drop-nil : (n : ℕ) → drop {A = ℕ} n [] ≡ []
drop-nil zero = refl
drop-nil (suc n) = refl

leb-suc : (a : ℕ) {b c : ℕ} → c ≡ suc b → leb a b ≡ leb (suc a) c
leb-suc a h = ground arith

full-Fills :
    (killed : Bool) (b : ℕ) (bs : List ℕ) (p : Pipe)
    → IsValid p
    → is_full p ≡ true
    → room p ≡ 0
    → Fills killed (b ∷ bs) p (pipewrite killed (b ∷ bs) p)
unfolding pipewrite
full-Fills killed b bs p v e r =
    let kept = sym (ap (λ k. contents p ++ take k (b ∷ bs)) r ∙ append_nil (contents p)) in
    let none_left = sym (ap (λ k. drop k (b ∷ bs)) r) in
    elim (Bool-cases (not p.read_open || killed)) [
      | inl c ↦
          rw (e, c)
            (record {
              valid = v;
              filled = kept;
              left = none_left;
              ends = rw c (ground (arith, r));
              woken = inl refl;
              flags = (refl, refl);
            })
      | inr c ↦
          rw (e, c)
            (record {
              valid = v;
              filled = kept;
              left = none_left;
              ends = rw c (ground (arith, r));
              woken = inr refl;
              flags = (refl, refl);
            })
    ]

next-Fills :
    (killed : Bool) (b : ℕ) (bs : List ℕ) (p : Pipe) (w : Writing)
    → used p < pipe_size
    → IsValid p
    → Fills killed bs (put_byte b p) w
    → Fills killed (b ∷ bs) p w
unfolding put_byte
next-Fills killed b bs p w h v f =
    let one : room p ≡ suc (room (put_byte b p)) = omega (arith, used-put_byte b p v h) in
    record {
      valid = f.valid;
      filled =
          f.filled
          ∙ ap (λ x. x ++ take (room (put_byte b p)) bs) (contents-put_byte b p v h)
          ∙ append_assoc (contents p) (b ∷ []) (take (room (put_byte b p)) bs)
          ∙ ap (λ k. contents p ++ take k (b ∷ bs)) (sym one);
      left = f.left ∙ ap (λ k. drop k (b ∷ bs)) (sym one);
      ends =
          f.ends
          ∙ ap (λ t. if t then returned else (if not p.read_open || killed then failed else slept))
              (leb-suc (length bs) one);
      woken = f.woken;
      flags = f.flags;
    }

-- In a valid pipe `pipewrite` takes the bytes for which there is room, in order, behind those in the
-- pipe, and keeps the others. It returns when none is left; otherwise it fails when the read end is
-- closed or the caller is killed, and sleeps if not. It wakes the readers unless it fails.
pub pipewrite-Fills :
    (killed : Bool) (bs : List ℕ) (p : Pipe) → IsValid p → Fills killed bs p (pipewrite killed bs p)
unfolding pipewrite
pipewrite-Fills killed [] p v = record {
  valid = v;
  filled = sym (ap (λ t. contents p ++ t) (take-nil (room p)) ∙ append_nil (contents p));
  left = sym (drop-nil (room p));
  ends = ground arith;
  woken = inr refl;
  flags = (refl, refl);
}
pipewrite-Fills killed (b ∷ bs) p v = elim (Bool-cases (is_full p)) [
  | inl e ↦ full-Fills killed b bs p v e (omega (arith, (is_full_iff p v).0 e))
  | inr e ↦
      let free : used p < pipe_size = used_lt p v e in
      rw e (
        next-Fills killed b bs p (pipewrite killed bs (put_byte b p)) free v
          (pipewrite-Fills killed bs (put_byte b p) (put_byte-IsValid b p v free)))
]

-- What `piperead` does with a pipe that has bytes or no writer.
pub record Takes (n : ℕ) (p : Pipe) (r : Reading) : Type 0 where
  pub valid : IsValid r.pipe
  pub ends : r.status ≡ returned
  pub woken : r.wakes ≡ some writers
  pub taken : r.bytes ≡ take n (contents p)
  pub left : contents r.pipe ≡ drop n (contents p)
  pub flags : (r.pipe.read_open ≡ p.read_open) × (r.pipe.write_open ≡ p.write_open)

record Copies (n : ℕ) (p : Pipe) (out : List ℕ × Pipe) : Type 0 where
  pub valid : IsValid out.1
  pub taken : out.0 ≡ take n (contents p)
  pub left : contents out.1 ≡ drop n (contents p)
  pub flags : (out.1.read_open ≡ p.read_open) × (out.1.write_open ≡ p.write_open)

next-Copies :
    (n : ℕ) (p : Pipe) (out : List ℕ × Pipe)
    → IsValid p
    → 0 < used p
    → Copies n (pass_byte p) out
    → Copies (suc n) p (get_byte p ∷ out.0, out.1)
unfolding pass_byte
next-Copies n p out v h c = record {
  valid = c.valid;
  taken =
      ap (λ w. get_byte p ∷ w) c.taken ∙ ap (λ w. take (suc n) w) (sym (contents-pass_byte p v h));
  left = c.left ∙ ap (λ w. drop (suc n) w) (sym (contents-pass_byte p v h));
  flags = c.flags;
}

contents_empty : (p : Pipe) → used p ≡ 0 → contents p ≡ []
contents_empty p e = ap (window p.data_bytes p.nread) e

copy_out-Copies : (n : ℕ) (p : Pipe) → IsValid p → Copies n p (copy_out n p)
unfolding copy_out
copy_out-Copies zero p v = record { valid = v; taken = refl; left = refl; flags = (refl, refl) }
copy_out-Copies (suc n) p v = elim (Bool-cases (p.nread == p.nwrite)) [
  | inl e ↦
      let none_left = contents_empty p ((empty_iff p v).0 e) in
      rw e (record {
        valid = v;
        taken = sym (ap (λ w. take (suc n) w) none_left);
        left = none_left ∙ sym (ap (λ w. drop (suc n) w) none_left);
        flags = (refl, refl);
      })
  | inr e ↦
      let some_left = used_pos p v e in
      rw e (
        next-Copies n p (copy_out n (pass_byte p)) v some_left
          (copy_out-Copies n (pass_byte p) (pass_byte-IsValid p v some_left)))
]

returns-Takes :
    (killed : Bool) (n : ℕ) (p : Pipe)
    → IsValid p
    → ((p.nread == p.nwrite) && p.write_open) ≡ false
    → Takes n p (piperead killed n p)
unfolding piperead
returns-Takes killed n p v e =
    let c = copy_out-Copies n p v in
    rw e (record {
      valid = c.valid;
      ends = refl;
      woken = refl;
      taken = c.taken;
      left = c.left;
      flags = c.flags;
    })

contents_nonempty : (p : Pipe) → IsValid p → (p.nread == p.nwrite) ≡ false → contents p ≢ []
contents_nonempty p v e q = cc (contents-pass_byte p v (used_pos p v e), q)

-- In a valid pipe `piperead` waits exactly when the pipe is empty and the write end open, and then
-- changes nothing; it fails instead of sleeping when the caller is killed. Otherwise it returns the
-- first `n` bytes in the pipe, or all when there are fewer, leaves the rest, and wakes the writers.
pub piperead-Takes :
    (killed : Bool) (n : ℕ) (p : Pipe)
    → IsValid p
    → ((contents p ≡ [])
        × (p.write_open ≡ true)
        × (piperead killed n p ≡ record {
          status = if killed then failed else slept;
          bytes = [];
          wakes = none;
          pipe = p;
        }))
      ⊎ (((contents p ≢ []) ⊎ (p.write_open ≡ false)) × Takes n p (piperead killed n p))
unfolding piperead
piperead-Takes killed n p v = elim (Bool-cases (p.nread == p.nwrite)) [
  | inr e ↦ inr (inl (contents_nonempty p v e), returns-Takes killed n p v (rw e refl))
  | inl e ↦ elim (Bool-cases p.write_open) [
    | inr o ↦ inr (inr o, returns-Takes killed n p v (rw (e, o) refl))
    | inl o ↦ elim (Bool-cases killed) [
      | inl k ↦ inl (contents_empty p ((empty_iff p v).0 e), o, rw (e, o, k) refl)
      | inr k ↦ inl (contents_empty p ((empty_iff p v).0 e), o, rw (e, o, k) refl)
    ]
  ]
]
