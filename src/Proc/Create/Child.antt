-- ===== src/Proc/Create/Child.antt =====
-- What `fork` makes of the parent, on each of its branches.
use ele.Base.{
  ℕ, ◌≡◌, ◌≢◌, refl, ◌⊎◌, inl, inr, Option, none, some, arith, ◌==◌, pos, negsuc, List, [], ◌∷◌,
  ◌++◌, Found, NoneFound, get_elem?, false, true, map, ap, get_or_congr, subst,
}
use ele.Proc.Table.{Proc, Kernel, idup, proc_at, zeroed, runnable, get_or_of_get_elem?}
use ele.Proc.Create.{allocproc, fork, copy_files, filedup_calls, copy_from}
use ele.Proc.Create.Slot.{allocproc-Claimed, is_unused, newborn, Claimed, Claimed-assign}

copy_files-closed : (fs : List (Option ℕ)) → copy_files fs (map (λ f. none) fs) ≡ fs
unfolding copy_files
copy_files-closed [] = refl
copy_files-closed (none ∷ fs) = ap (λ (r : List (Option ℕ)). none ∷ r) (copy_files-closed fs)
copy_files-closed (some f ∷ fs) = ap (λ (r : List (Option ℕ)). some f ∷ r) (copy_files-closed fs)

-- The caller is a process of the table, and free slots hold no open file.
pub record CanFork (k : Kernel) (cur : ℕ) : Type 0 where
  pub caller : is_unused (proc_at k cur) ≡ false
  pub closed :
      (i : ℕ) (p : Proc)
      → get_elem? k.table i ≡ some p
      → is_unused p ≡ true
      → p.ofile ≡ map (λ f. none) (proc_at k cur).ofile

-- The child of `parent`, the process at index `cur`, in the slot that held `p`.
abbrev pub child_of : (parent : Proc) → (cur kstack pgdir pid : ℕ) → Proc → Proc
child_of parent cur kstack pgdir pid p = record p {
  sz = parent.sz;
  pgdir = pgdir;
  kstack = kstack;
  state = runnable;
  pid = pid;
  parent = some cur;
  tf = record parent.tf { eax = 0 };
  ofile = parent.ofile;
  cwd = parent.cwd;
  name = parent.name;
  quantum = pos 2;
  priority = pos 0;
  level = 0;
}

-- The outcomes of `fork` with memory for the child.
abbrev pub ForkResult : Kernel → (cur kstack pgdir : ℕ) → Type 0
ForkResult k cur kstack pgdir =
    ((fork k cur kstack pgdir ≡ (negsuc 0, k, [])) × NoneFound is_unused k.table)
    ⊎ ((i : ℕ) × (f : Found is_unused k.table i) × ((fork k cur kstack pgdir).0 ≡ pos k.nextpid)
        × Claimed k (fork k cur kstack pgdir).1 i
            (child_of (proc_at k cur) cur kstack pgdir k.nextpid f.item)
        × ((fork k cur kstack pgdir).2
            ≡ filedup_calls (proc_at k cur).ofile ++ idup (proc_at k cur).cwd ∷ []))

module _ (k : Kernel) (cur kstack pgdir : ℕ) (v : CanFork k cur) where
  -- Claiming a free slot leaves the caller as it was.
  caller-same :
      (k' : Kernel) (i : ℕ) {q : Proc} (f : Found is_unused k.table i)
      → Claimed k k' i q
      → proc_at k' cur ≡ proc_at k cur
  caller-same k' i f c = get_or_congr k'.table k.table cur zeroed (c.others cur other)
    where
      other : i ≢ cur
      other e = cc (
        v.caller,
        f.passes,
        get_or_of_get_elem? k.table i f.at,
        ap (λ j. is_unused (proc_at k j)) e,
      )

  copy-child :
      (i : ℕ) (f : Found is_unused k.table i)
      → copy_from (proc_at k cur) cur pgdir (newborn k.nextpid kstack f.item)
        ≡ child_of (proc_at k cur) cur kstack pgdir k.nextpid f.item
  copy-child i f = rw (v.closed i f.item f.at f.passes) (
      ap (λ fs. record (child_of (proc_at k cur) cur kstack pgdir k.nextpid f.item) { ofile = fs })
        (copy_files-closed (proc_at k cur).ofile))

  -- What `fork` returns when there is memory for the child's kernel stack and page directory: -1
  -- and no change if every slot is taken; otherwise the new process number. Then the first free slot
  -- holds a runnable child on level 0 with the caller's memory size, files, directory and name and
  -- with `eax` 0, no other slot has changed, and every open file and the directory were shared.
  pub fork-Child : kstack ≢ 0 → pgdir ≢ 0 → ForkResult k cur kstack pgdir
  unfolding fork
  fork-Child hs hp = elim (allocproc-Claimed k kstack) [
    | inl (e, nothing) ↦
        let null : (allocproc k kstack).0 ≡ none = ap (λ (r : Option ℕ × Kernel). r.0) e in
        let kept : (allocproc k kstack).1 ≡ k = ap (λ (r : Option ℕ × Kernel). r.1) e in
        inl (rw (null, fork, kept) refl, nothing)
    | inr (i, f, inr (z, e, c)) ↦ absurd (hs z)
    | inr (i, f, inl (ne, e, c)) ↦
        let z : (pgdir == 0) ≡ false = ground arith in
        inr (
          i,
          f,
          rw (e, fork, z) (ap (λ q. pos q.pid) (get_or_of_get_elem? _ i c.slot)),
          rw (e, fork, z, caller-same (allocproc k kstack).1 i f c)
              (subst (Claimed k _ i) (copy-child i f) (
                Claimed-assign k (allocproc k kstack).1 i (copy_from (proc_at k cur) cur pgdir) c)),
          rw (e, fork, z, caller-same (allocproc k kstack).1 i f c) refl,
        )
  ]
