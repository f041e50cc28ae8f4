-- ===== src/Fs/Tests.antt =====
-- A disk of ten blocks with its bitmap in block 3, and the theorems at it.
use ele.Fs.{bblock, Fs, balloc, has_bit, bzero, balloc_from, free_bit, logged, set_bit, bfree, bpb}
use ele.Base.{
  not, ◌&&◌, ◌<◌, ◌==◌, ◌+◌, ◌/◌, ◌≡◌, refl, sym, subst, ◌≢◌, true, false, arith, if◌then◌else◌,
  done, store, store_self, ℕ,
}
use ele.Fs.Bitmap.{used}
use ele.Fs.Blocks.{IsReserved}
use ele.Fs.Holders.{System, Turns, takes, here, next, Turns-separate}

abbrev small : Fs
small = record {
  size = 10;
  bmapstart = 3;
  inodestart = 2;
  ninodes = 8;
  block = λ n o. if n == 3 && o == 0 then 15 else 7;
}

small-IsReserved : IsReserved small
unfolding has_bit
small-IsReserved i l =
    let z : i / bpb ≡ 0 = omega (arith, l) in
    subst (λ x. (x + 3 < 10) × (used small (x + 3) ≡ true)) (sym z) (omega arith, refl)

abbrev four_taken : Fs
four_taken = bzero 4 (logged 3 (store (small.block 3) 0 31) small)

balloc-four : balloc small ≡ done (4, four_taken)
unfolding balloc balloc_from free_bit has_bit set_bit bzero logged
balloc-four = refl

abbrev fresh : System
fresh = record { fs = small; held = λ n. false }

abbrev with_four : System
with_four = record { fs = four_taken; held = store fresh.held 4 true }

to_four : Turns fresh with_four
to_four = next here (takes 4 balloc-four)

four_held : with_four.held 4 ≡ true
four_held = store_self fresh.held 4 true

Turns-separate_example :
    ((t : Fs) → balloc four_taken ≢ done (4, t))
    × (t : Fs) × (bfree 4 four_taken ≡ done t)
    × ((i : ℕ) → used t i ≡ (not (4 == i) && used four_taken i))
    × ((m : ℕ)
        → ((i : ℕ) → i < 10 → (bblock i four_taken == m) ≡ false)
        → t.block m ≡ four_taken.block m)
unfolding bzero logged
Turns-separate_example = Turns-separate small small-IsReserved to_four 4 four_held
