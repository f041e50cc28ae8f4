-- ===== src/Fs/Bits.antt =====
-- The bits of a byte (`|` and `& ~` of fs.c).
use ele.Base.{ℕ, zero, suc, ◌+◌, ◌*◌, ◌/◌, ◌%◌, ◌≡◌, ap, ◌∙◌, ◌&&◌, ◌||◌, not, arith, ◌==◌}
use ele.Fs.{has_bit, set_bit, clear_bit}

half : (x byte : ℕ) → (x * 2 + byte % 2) / 2 ≡ x
half x byte = omega arith

==-suc : (k j : ℕ) → (k == j) ≡ (suc k == suc j)
==-suc k j = ground arith

pub has_bit-set_bit : (j k byte : ℕ) → has_bit j (set_bit k byte) ≡ (k == j || has_bit j byte)
unfolding has_bit set_bit
has_bit-set_bit zero zero byte = ground arith
has_bit-set_bit zero (suc k) byte = ground arith
has_bit-set_bit (suc j) zero byte = ground arith
has_bit-set_bit (suc j) (suc k) byte =
    ap (has_bit j) (half (set_bit k (byte / 2)) byte)
    ∙ has_bit-set_bit j k (byte / 2)
    ∙ ap (λ q. q || has_bit j (byte / 2)) (==-suc k j)

pub has_bit-clear_bit :
    (j k byte : ℕ) → has_bit j (clear_bit k byte) ≡ (not (k == j) && has_bit j byte)
unfolding has_bit clear_bit
has_bit-clear_bit zero zero byte = ground arith
has_bit-clear_bit zero (suc k) byte = ground arith
has_bit-clear_bit (suc j) zero byte = ground arith
has_bit-clear_bit (suc j) (suc k) byte =
    ap (has_bit j) (half (clear_bit k (byte / 2)) byte)
    ∙ has_bit-clear_bit j k (byte / 2)
    ∙ ap (λ q. not q && has_bit j (byte / 2)) (==-suc k j)
