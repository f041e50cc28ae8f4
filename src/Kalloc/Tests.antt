-- ===== src/Kalloc/Tests.antt =====
-- Runs of the allocator on concrete input, and the theorems at them.
use ele.Kalloc.Range.{Frees, freerange-Frees}
use ele.Kalloc.Owners.{System, holds, Turns, Apart, next, Turns-exclusive, here, takes}
use ele.Kalloc.{Memory, freerange, is_page, kalloc, kfree, free_pages, page_round_up}
use ele.Base.{ℕ, ◌+◌, ◌≡◌, refl, ◌≢◌, ◌⊎◌, true, false, [], ◌∷◌, arith, done, panic, ◌>>=◌, store}

-- Two pages of kernel memory after the kernel's end, and no free page.
abbrev kernel_stop : ℕ
kernel_stop = 2148532224

abbrev bare : Memory
bare = record { freelist = 0; word = λ a. 0 }

abbrev second : ℕ
second = 2148536320

freed_order :
    (freerange kernel_stop kernel_stop (kernel_stop + 8192) bare >>= λ m. done (kalloc m).0)
    ≡ done second
unfolding freerange free_pages kfree is_page page_round_up store kalloc
freed_order = refl

unaligned : kfree kernel_stop 2148532225 bare ≡ panic
unfolding kfree is_page
unaligned = refl

freerange-Frees_example :
    (n : Memory) × (freerange kernel_stop kernel_stop (kernel_stop + 8192) bare ≡ done n)
    × Frees kernel_stop (kernel_stop + 8192) [] n
freerange-Frees_example =
    freerange-Frees kernel_stop kernel_stop (kernel_stop + 8192) bare [] (omega arith) (omega arith)
      (omega arith) refl tt (λ v h. cc)

-- A system with one free page.
abbrev one_page : System
one_page = record { memory = record { freelist = kernel_stop; word = λ a. 0 }; held = λ v. false }

one_page-Apart : Apart kernel_stop one_page (kernel_stop ∷ [])
unfolding is_page
one_page-Apart = record {
  linked = (refl, (λ e. omega (arith, e)), refl);
  distinct = (refl, tt);
  free = λ v h. (refl, ground (arith, h));
  used = λ v h. cc;
}

abbrev taken : System
taken = record {
  memory = record { freelist = 0; word = λ a. 0 };
  held = holds (λ v. false) kernel_stop true;
}

taken-Turns : Turns kernel_stop one_page taken
unfolding kalloc
taken-Turns = next here (takes kernel_stop refl (λ e. omega (arith, e)))

Turns-exclusive_example :
    (((kalloc taken.memory).0 ≡ 0)
      ⊎ ((taken.held (kalloc taken.memory).0 ≡ false)
          × (is_page kernel_stop (kalloc taken.memory).0 ≡ true)))
    × ((v : ℕ) → taken.held v ≡ true → kfree kernel_stop v taken.memory ≢ panic)
Turns-exclusive_example = Turns-exclusive one_page-Apart taken-Turns
