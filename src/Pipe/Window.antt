-- ===== src/Pipe/Window.antt =====
-- The bytes in the ring of a pipe (pipe.c), oldest first: the queue that the two counters describe.
use ele.Pipe.{Pipe, is_full, pass_byte, pipe_size, put_byte, uint_size, get_byte}
use ele.Base.{
  ℕ, zero, suc, ◌+◌, ◌-◌, ◌%◌, ◌≤◌, ◌<◌, ◌≡◌, refl, sym, ap, ap₂, ◌∙◌, ◌↔◌, true, List, [], ◌∷◌,
  ◌++◌, arith, ◌==◌, length, get_or, length-set, set, get_or-set_ne, get_or-set_self, false,
}

-- The `n` bytes from the position `r` on.
abbrev pub window : List ℕ → ℕ → ℕ → List ℕ
window bytes r zero = []
window bytes r (suc n) = get_or bytes (r % pipe_size) 0 ∷ window bytes (suc r) n

-- The number of bytes in the pipe: `nwrite - nread` on `uint`.
abbrev pub used : Pipe → ℕ
used p = (p.nwrite + uint_size - p.nread) % uint_size

abbrev pub contents : Pipe → List ℕ
contents p = window p.data_bytes p.nread (used p)

pub record IsValid (p : Pipe) : Type 0 where
  pub sized : length p.data_bytes ≡ pipe_size
  pub reads : p.nread < uint_size
  pub writes : p.nwrite < uint_size
  pub bounded : used p ≤ pipe_size

pub length-window : (bytes : List ℕ) (r n : ℕ) → length (window bytes r n) ≡ n
length-window bytes r zero = refl
length-window bytes r (suc n) = ap suc (length-window bytes (suc r) n)

window_congr :
    (bytes : List ℕ) (r s n : ℕ)
    → r % pipe_size ≡ s % pipe_size
    → window bytes r n ≡ window bytes s n
window_congr bytes r s zero h = refl
window_congr bytes r s (suc n) h =
    ap₂ (λ i w. get_or bytes i 0 ∷ w) h (window_congr bytes (suc r) (suc s) n (omega (arith, h)))

window-suc :
    (bytes : List ℕ) (r n : ℕ)
    → window bytes r (suc n) ≡ window bytes r n ++ (get_or bytes ((r + n) % pipe_size) 0 ∷ [])
window-suc bytes r zero = ap (λ i. get_or bytes i 0 ∷ []) (omega arith)
window-suc bytes r (suc n) =
    ap (λ w. get_or bytes (r % pipe_size) 0 ∷ w)
      (window-suc bytes (suc r) n
        ∙ ap (λ i. window bytes (suc r) n ++ (get_or bytes i 0 ∷ [])) (omega arith))

-- A byte behind the window does not change it.
window-set :
    (bytes : List ℕ) (b r n m : ℕ)
    → n ≤ m
    → m < pipe_size
    → window (set bytes ((r + m) % pipe_size) b) r n ≡ window bytes r n
window-set bytes b r zero m h l = refl
window-set bytes b r (suc n) zero h l = absurd (omega arith)
window-set bytes b r (suc n) (suc m) h l =
    ap₂ (λ x w. x ∷ w) (get_or-set_ne bytes b 0 (λ e. omega (arith, e)))
      (ap (λ i. window (set bytes i b) (suc r) n) (omega arith)
        ∙ window-set bytes b (suc r) n m (omega arith) (omega arith))

pub is_full_iff : (p : Pipe) → IsValid p → (is_full p ≡ true) ↔ (used p ≡ pipe_size)
unfolding is_full
is_full_iff p v = ground (arith, v.reads, v.writes, v.bounded)

pub empty_iff : (p : Pipe) → IsValid p → ((p.nread == p.nwrite) ≡ true) ↔ (used p ≡ 0)
empty_iff p v = ground (arith, v.reads, v.writes, v.bounded)

pub used_lt : (p : Pipe) → IsValid p → is_full p ≡ false → used p < pipe_size
unfolding is_full
used_lt p v e = ground (arith, v.reads, v.writes, v.bounded)

pub used_pos : (p : Pipe) → IsValid p → (p.nread == p.nwrite) ≡ false → 0 < used p
used_pos p v e = ground (arith, v.reads, v.writes)

pub used-put_byte :
    (b : ℕ) (p : Pipe) → IsValid p → used p < pipe_size → used (put_byte b p) ≡ used p + 1
unfolding put_byte
used-put_byte b p v h = omega (arith, v.reads, v.writes)

pub put_byte-IsValid : (b : ℕ) (p : Pipe) → IsValid p → used p < pipe_size → IsValid (put_byte b p)
unfolding put_byte
put_byte-IsValid b p v h = record {
  sized = length-set p.data_bytes (p.nwrite % pipe_size) b ∙ v.sized;
  reads = v.reads;
  writes = omega arith;
  bounded = omega (arith, v.reads, v.writes);
}

write_index : (p : Pipe) → IsValid p → p.nwrite % pipe_size ≡ (p.nread + used p) % pipe_size
write_index p v = omega (arith, v.reads, v.writes)

pub contents-put_byte :
    (b : ℕ) (p : Pipe)
    → IsValid p
    → used p < pipe_size
    → contents (put_byte b p) ≡ contents p ++ (b ∷ [])
unfolding put_byte
contents-put_byte b p v h =
    let bytes = set p.data_bytes (p.nwrite % pipe_size) b in
    let next : used (put_byte b p) ≡ suc (used p) = omega (arith, v.reads, v.writes) in
    ap (window bytes p.nread) next
    ∙ window-suc bytes p.nread (used p)
    ∙ ap₂ (λ w x. w ++ (x ∷ []))
        (ap (λ i. window (set p.data_bytes i b) p.nread (used p)) (write_index p v)
          ∙ window-set p.data_bytes b p.nread (used p) (used p) (omega arith) h)
        (ap (λ i. get_or bytes i 0) (sym (write_index p v))
          ∙ get_or-set_self p.data_bytes (p.nwrite % pipe_size) b 0 (omega (arith, v.sized)))

used-pass_byte : (p : Pipe) → IsValid p → 0 < used p → used (pass_byte p) + 1 ≡ used p
unfolding pass_byte
used-pass_byte p v h = omega (arith, v.reads, v.writes)

pub pass_byte-IsValid : (p : Pipe) → IsValid p → 0 < used p → IsValid (pass_byte p)
unfolding pass_byte
pass_byte-IsValid p v h = record {
  sized = v.sized;
  reads = omega arith;
  writes = v.writes;
  bounded = omega (arith, v.reads, v.writes, v.bounded);
}

pub contents-pass_byte :
    (p : Pipe) → IsValid p → 0 < used p → contents p ≡ get_byte p ∷ contents (pass_byte p)
unfolding pass_byte get_byte
contents-pass_byte p v h =
    let next : used p ≡ suc (used (pass_byte p)) = omega (arith, v.reads, v.writes) in
    ap (window p.data_bytes p.nread) next
    ∙ ap (λ w. get_byte p ∷ w)
        (window_congr p.data_bytes (suc p.nread) ((p.nread + 1) % uint_size) (used (pass_byte p))
          (omega arith))
