-- ===== src/Proc/Tests.antt =====
-- Creating processes on a concrete table.
use ele.Base.{
  ℕ, zero, suc, ◌≡◌, refl, ap, true, none, some, [], ◌∷◌, map, arith, get_elem?, replicate,
  find_index, find_from, update,
}
use ele.Proc.Table.{Proc, assign, filedup, idup, proc_at}
use ele.Mlfq.Samples.{busy}
use ele.Proc.Create.Slot.{is_unused}
use ele.Proc.Create.Child.{CanFork, ForkResult, fork-Child}
use ele.Proc.Create.{fork, allocproc, filedup_calls}

get_elem?-replicate {ℓ} :
    {A : Type ℓ} (n i : ℕ) {a b : A} → get_elem? (replicate n a) i ≡ some b → b ≡ a
get_elem?-replicate zero i h = cc
get_elem?-replicate (suc n) zero h = ground arith
get_elem?-replicate (suc n) (suc i) h = get_elem?-replicate n i h

busy-CanFork : CanFork busy 1
busy-CanFork = record { caller = refl; closed = closed }
  where
    closed :
        (i : ℕ) (p : Proc)
        → get_elem? busy.table i ≡ some p
        → is_unused p ≡ true
        → p.ofile ≡ map (λ f. none) (proc_at busy 1).ofile
    closed zero p h u = ground arith
    closed (suc zero) p h u = ground arith
    closed (suc (suc zero)) p h u = ground arith
    closed (suc (suc (suc zero))) p h u = ground arith
    closed (suc (suc (suc (suc i)))) p h u = ap (λ (q : Proc). q.ofile) (get_elem?-replicate 60 i h)

fork-Child_example : ForkResult busy 1 4096 8192
fork-Child_example = fork-Child busy 1 4096 8192 busy-CanFork (omega arith) (omega arith)

-- The fifth process is a child of pid 2, which has file 7 open.
fork-busy : (fork busy 1 4096 8192).2 ≡ filedup 7 ∷ idup none ∷ []
unfolding fork allocproc find_index find_from assign filedup_calls update
fork-busy = refl
