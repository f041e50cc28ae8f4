-- ===== src/Dir/Tests.antt =====
-- A directory with the entry "a" for inode 3, and the theorems at it.
use ele.Base.{
  ℕ, ◌%◌, ◌<◌, ◌≡◌, refl, subst, ◌≢◌, ◌⊎◌, Bool, true, false, arith, get_or, none, ◌==◌,
  if◌then◌else◌, done, panic, pos, load_short, ap,
}
use ele.Dir.{dirlookup, dirlink, strncmp}
use ele.Dir.Lookup.{IsDirectory, hit, found_at, found_num, dirent_at}
use ele.Dir.Named.{Named, dirlookup-Finds}
use ele.Dir.Linked.{dirlink-dirlookup}
use ele.Icache.{Icache}
use ele.Inode.{Inode}
use ele.Inode.Samples.{filled_disk, three, three-IsSound}
use ele.Fs.{Fs}
use ele.Strings.Text.{text}
use ele.Fs.Free.{free}
use ele.Strings.{Bytes, strncmp}

-- Block 4 has the number 3, the letter and NULs.
abbrev entries : Bytes
entries o = if o == 0 then 3 else if o == 2 then 97 else 0

abbrev folder : Fs
folder = filled_disk entries

abbrev directory : Inode
directory = record three { type = 1; size = 16 }

abbrev root_only : Icache
root_only = record {
  entry = λ k. record {
    dev = 1;
    ref = if k == 0 then pos 1 else pos 0;
    valid = true;
    node = directory;
  };
  fs = folder;
}

abbrev letter : ℕ → Bytes
letter c x = if x == 0 then c else 0

abbrev no_devices : ℕ → Bool
no_devices d = false

abbrev junk : Bytes
junk x = 7

root-IsDirectory : IsDirectory 0 root_only
root-IsDirectory = record {
  file = record {
    sound = three-IsSound entries 1 16 1;
    dense = λ o l z. ground (arith, l, z);
    bounded = omega arith;
  };
  typed = refl;
  entries = refl;
}

-- The letter is found, the other one is not.
found_letter : hit 0 (letter 97) root_only 0 ≡ true
unfolding strncmp load_short
found_letter = refl

dirlookup-Finds_example :
    (((o : ℕ) → o < 16 → o % 16 ≡ 0 → ¬ Named 0 (letter 97) root_only o)
      × (dirlookup no_devices 0 (letter 97) junk root_only ≡ done (none, root_only)))
    ⊎ ((o : ℕ) × (o < 16)
        × (o % 16 ≡ 0)
        × Named 0 (letter 97) root_only o
        × ((j : ℕ) → j < o → j % 16 ≡ 0 → ¬ Named 0 (letter 97) root_only j)
        × (dirlookup no_devices 0 (letter 97) junk root_only ≡ found_at 0 root_only o))
dirlookup-Finds_example = dirlookup-Finds no_devices 0 (letter 97) junk root_only root-IsDirectory

other_name : text 14 0 (letter 98) ≢ text 14 2 (dirent_at 0 0 root_only)
other_name e = ground (arith, ap (λ xs. get_or xs 0 0) e)

other_absent : (p : ℕ) → p < 16 → p % 16 ≡ 0 → ¬ Named 0 (letter 98) root_only p
other_absent p l a =
    let first : 0 ≡ p = omega (arith, l, a) in
    subst (λ o. ¬ Named 0 (letter 98) root_only o) first (λ n. other_name n.1)

dirlink-dirlookup_example :
    ((dirlink no_devices 0 (letter 98) junk 5 root_only ≡ panic) × (free folder < 2))
    ⊎ ((o : ℕ) × (d : Icache) × (dirlink no_devices 0 (letter 98) junk 5 root_only ≡ done (true, d))
        × IsDirectory 0 d
        × (dirlookup no_devices 0 (letter 98) junk d ≡ found_num 0 d o 5)
        × (o < 16 → load_short (dirent_at 0 o root_only) 0 ≡ 0)
        × ((p : ℕ)
            → p < 16
            → p % 16 ≡ 0
            → p ≢ o
            → (x : ℕ) → x < 16
            → dirent_at 0 p d x ≡ dirent_at 0 p root_only x))
dirlink-dirlookup_example =
    dirlink-dirlookup no_devices 0 5 (letter 98) junk junk root_only root-IsDirectory (omega arith)
      (omega arith) (omega arith) other_absent
