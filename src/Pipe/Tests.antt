-- ===== src/Pipe/Tests.antt =====
-- Runs of the pipe on concrete input, and the theorems at them.
use ele.Pipe.History.{accepted, Uses, allocates, Uses-fifo, reads, writes}
use ele.Pipe.Bytes.{Fills, pipewrite-Fills, Takes, piperead-Takes}
use ele.Pipe.{
  Pipe, Writing, pipealloc, pipeclose, pipewrite, refused, put_byte, piperead, pipe_size, slept,
  is_full, copy_out, pass_byte, get_byte,
}
use ele.Pipe.Window.{IsValid, contents}
use ele.Base.{
  ℕ, ◌≤◌, ◌≡◌, refl, ◌≢◌, ◌⊎◌, true, false, none, some, List, [], ◌∷◌, ◌++◌, arith, length, get_or,
  replicate,
}

abbrev zeros : List ℕ
zeros = replicate 512 0

-- A pipe about to wrap: both counters stand before 2 ^ 32.
abbrev late : Pipe
late = record {
  data_bytes = zeros;
  nread = 4294967295;
  nwrite = 4294967295;
  read_open = true;
  write_open = true;
}

late-IsValid : IsValid late
late-IsValid = record {
  sized = refl;
  reads = omega arith;
  writes = omega arith;
  bounded = omega arith;
}

abbrev written : Writing
written = pipewrite false (7 ∷ 8 ∷ []) late

written_last : get_or written.pipe.data_bytes 511 0 ≡ 7
unfolding pipewrite put_byte is_full
written_last = refl

written_count : written.pipe.nwrite ≡ 1
unfolding pipewrite put_byte is_full
written_count = refl

read_back : (piperead false 5 written.pipe).bytes ≡ 7 ∷ 8 ∷ []
unfolding pipewrite put_byte is_full piperead copy_out pass_byte get_byte
read_back = refl

closed_twice : (pipeclose true (record late { read_open = false })).1 ≡ none
unfolding pipeclose
closed_twice = refl

no_second_file : pipealloc (some 3) none none ≡ refused (3 ∷ [])
unfolding pipealloc
no_second_file = refl

abbrev new : Pipe
new = record { data_bytes = zeros; nread = 0; nwrite = 0; read_open = true; write_open = true }

new-Uses : Uses new [] []
unfolding pipealloc
new-Uses =
    allocates (some 3) (some 4) zeros (record { file = 3; readable = true; writable = false })
      (record { file = 4; readable = false; writable = true }) refl refl

pipewrite-Fills_example : Fills false (7 ∷ 8 ∷ []) late written
pipewrite-Fills_example = pipewrite-Fills false (7 ∷ 8 ∷ []) late late-IsValid

piperead-Takes_example :
    ((contents late ≡ [])
      × (late.write_open ≡ true)
      × (piperead false 5 late ≡ record { status = slept; bytes = []; wakes = none; pipe = late }))
    ⊎ (((contents late ≢ []) ⊎ (late.write_open ≡ false)) × Takes 5 late (piperead false 5 late))
piperead-Takes_example = piperead-Takes false 5 late late-IsValid

abbrev filled : Pipe
filled = (pipewrite false (7 ∷ 8 ∷ []) new).pipe

Uses-fifo_example :
    ([] ++ accepted (7 ∷ 8 ∷ []) (pipewrite false (7 ∷ 8 ∷ []) new).rest
      ≡ ([] ++ (piperead false 1 filled).bytes) ++ contents (piperead false 1 filled).pipe)
    × (length (contents (piperead false 1 filled).pipe) ≤ pipe_size)
Uses-fifo_example = Uses-fifo (reads false 1 (writes false (7 ∷ 8 ∷ []) new-Uses))
