-- ===== src/Log/Tests.antt =====
-- The log on a small disk, and its theorems there.
use ele.Log.Crash.{Ready}
use ele.Log.Header.{get_header-put_header}
use ele.Log.Store.{Block, Store, write, boot, bread, bwrite}
use ele.Log.Calls.{log_write, begin_op, absorb, log_size, admitted}
use ele.Log.Budget.{Running, fresh, Moves, move, log_write-succeeds, stay, begins}
use ele.Log.View.{header, IsHome}
use ele.Log.Atomic.{Whole, commit-durable, recoveries, commit-atomic}
use ele.Log.Commit.{
  commit, get_header, put_header, read_words, recover_from_log, write_log, write_head,
  install_trans, read_head, write_words,
}
use ele.Base.{
  ℕ, zero, suc, ◌+◌, ◌≤◌, ◌≡◌, refl, inr, List, [], ◌∷◌, arith, length, replicate, done, panic,
  Distinct,
}

abbrev blank : Block
blank = replicate 128 0

-- Blocks 40 and 41 are changed in the cache; the log is the 31 blocks from block 2 on, and the
-- power fails after `power` writes.
abbrev changed : (power : ℕ) → Store
changed power = record {
  disk = λ a. blank;
  cache = write (write (λ a. blank) 40 (7 ∷ [])) 41 (9 ∷ []);
  power = power;
}

abbrev transaction : List ℕ
transaction = 40 ∷ 41 ∷ []

changed-Ready : (power : ℕ) → Ready 2 31 transaction (changed power)
unfolding header get_header read_words write
changed-Ready power = record {
  empty = refl;
  home = (inr (omega arith), (inr (omega arith), tt));
  distinct = (refl, (refl, tt));
  room = omega arith;
  fits = omega arith;
  fits_disk = omega arith;
  clean = λ a h. ground arith;
}

-- The power fails after the header is written and one block is installed, then twice in recovery.
commit-atomic_example :
    Whole 2 31
      (changed 4).disk
      (changed 4).cache
      (recover_from_log 2
        (boot (recoveries 2 (commit 2 transaction (changed 4)).disk (0 ∷ 1 ∷ [])) 31)).disk
commit-atomic_example =
    commit-atomic 2 31 transaction (changed 4) (0 ∷ 1 ∷ []) 31 (changed-Ready 4) (omega arith)

commit-durable_example :
    (header 2 (commit 2 transaction (changed 6)).disk ≡ [])
    × ((a : ℕ) → IsHome 2 31 a → (commit 2 transaction (changed 6)).disk a ≡ (changed 6).cache a)
commit-durable_example = commit-durable 2 31 transaction (changed 6) (changed-Ready 6) (omega arith)

-- After three writes the transaction is committed, after two it is not.
recovered : (power : ℕ) → Block
unfolding commit write_log write_head install_trans recover_from_log read_head bread bwrite write
    get_header read_words put_header write_words
recovered power = (recover_from_log 2 (boot (commit 2 transaction (changed power)).disk 31)).disk 41

recovered-cases : (recovered 2 ≡ blank) × (recovered 3 ≡ 9 ∷ [])
unfolding recovered
recovered-cases = (refl, refl)

get_header-put_header_example : get_header (put_header transaction blank) ≡ 40 ∷ 41 ∷ []
get_header-put_header_example = get_header-put_header transaction blank (omega arith)

-- One operation has begun in a log of 31 blocks and has not written yet.
abbrev begun : Running
begun = record { log = record (fresh 2 31).log { outstanding = 1 }; budgets = 10 ∷ [] }

begun-Moves : Moves (fresh 2 31) begun
unfolding begin_op
begun-Moves = move stay (begins refl)

log_write-succeeds_example :
    (log_write 40 begun.log ≡ done (record begun.log { lh = absorb 40 [] }))
    × (length (absorb 40 []) ≤ log_size)
    × Distinct (absorb 40 [])
log_write-succeeds_example = log_write-succeeds 2 31 40 0 9 (omega arith) begun-Moves refl

abbrev numbers : ℕ → List ℕ
numbers zero = []
numbers (suc n) = (40 + n) ∷ numbers n

-- In the log of 30 blocks that mkfs makes, `begin_op` admits three operations, and the thirtieth
-- block that they write is refused.
overflow :
    (begin_op (record (fresh 2 30).log { outstanding = 2 })
      ≡ admitted (record (fresh 2 30).log { outstanding = 3 }))
    × (log_write 39 (record (fresh 2 30).log { outstanding = 3; lh = numbers 29 }) ≡ panic)
unfolding begin_op log_write
overflow = (refl, refl)
