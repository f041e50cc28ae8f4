-- ===== src/Log/Budget.antt =====
-- The admission rule of `begin_op` against the space in the log: operations that write at most
-- `MAXOPBLOCKS` blocks each never overflow a log of more than `LOGSIZE` blocks.

use ele.Log.Calls.{
  begin_op, end_op, Log, absorb, log_size, max_op_blocks, admitted, log_write, end_commit,
}
use ele.Base.{
  false, refl, arith, some, length-set, lt_of_get_elem?, ◌*◌, ◌<◌, ℕ, zero, suc, ◌+◌, ◌≤◌, ◌≡◌,
  true, ◌||◌, List, [], ◌∷◌, ◌==◌, length, get_elem?, done, set, mem, Distinct,
}

absorb-mem : (b : ℕ) (hs : List ℕ) (a : ℕ) → mem a (absorb b hs) ≡ (mem a hs || b == a)
unfolding absorb
absorb-mem b [] a = ground arith
absorb-mem b (h ∷ hs) a = ground (arith, absorb-mem b hs a)

-- `log_write` lists its block, keeps the blocks listed once, and lists no other.
pub absorb-Distinct : (b : ℕ) (hs : List ℕ) → Distinct hs → Distinct (absorb b hs)
unfolding absorb
absorb-Distinct b [] d = (refl, tt)
absorb-Distinct b (h ∷ hs) d = ground (arith, absorb-Distinct b hs, absorb-mem b hs h)

length-absorb : (b : ℕ) (hs : List ℕ) → length (absorb b hs) ≤ length hs + 1
unfolding absorb
length-absorb b [] = omega arith
length-absorb b (h ∷ hs) = ground (arith, length-absorb b hs)

abbrev sum : List ℕ → ℕ
sum [] = 0
sum (x ∷ xs) = x + sum xs

-- The log with the operations under way: for each one the number of `log_write` calls that it may
-- still make.
pub record Running : Type 0 where
  pub log : Log
  pub budgets : List ℕ

abbrev pub drop_at : ℕ → List ℕ → List ℕ
drop_at i [] = []
drop_at zero (x ∷ xs) = xs
drop_at (suc i) (x ∷ xs) = x ∷ drop_at i xs

-- The operations' steps. The one at index `i` writes within its budget, or ends.
pub data Move (r : Running) : Running → Type 0 where
  begins :
      {l : Log}
      → begin_op r.log ≡ admitted l
      → Move r (record { log = l; budgets = max_op_blocks ∷ r.budgets })
  writes :
      {l : Log} (i b n : ℕ)
      → get_elem? r.budgets i ≡ some (suc n)
      → log_write b r.log ≡ done l
      → Move r (record { log = l; budgets = set r.budgets i n })
  ends :
      {l : Log} {n : ℕ} (i : ℕ)
      → get_elem? r.budgets i ≡ some n
      → end_op r.log ≡ done (false, l)
      → Move r (record { log = l; budgets = drop_at i r.budgets })
  commits :
      {l : Log} {n : ℕ} (i : ℕ)
      → get_elem? r.budgets i ≡ some n
      → end_op r.log ≡ done (true, l)
      → Move r (record { log = end_commit l; budgets = drop_at i r.budgets })

pub data Moves (r : Running) : Running → Type 0 where
  stay : Moves r r
  move : {t u : Running} → Moves r t → Move t u → Moves r u

-- No operation may make more than `MAXOPBLOCKS` calls.
abbrev pub AtMost : List ℕ → Type 0
AtMost [] = Unit {0}
AtMost (b ∷ bs) = (b ≤ max_op_blocks) × AtMost bs

-- The blocks in the log and those that may still come fit into the header.
pub record Fits (r : Running) : Type 0 where
  pub counted : r.log.outstanding ≡ length r.budgets
  pub bounded : length r.log.lh + sum r.budgets ≤ log_size
  pub capped : AtMost r.budgets
  pub idle : r.log.committing ≡ false
  pub distinct : Distinct r.log.lh

sum-set :
    (i n : ℕ) (bs : List ℕ) {m : ℕ} → get_elem? bs i ≡ some m → sum (set bs i n) + m ≡ sum bs + n
sum-set i n [] h = cc
sum-set zero n (b ∷ bs) h = ground arith
sum-set (suc i) n (b ∷ bs) h = omega (arith, sum-set i n bs h)

sum-drop_at :
    (i : ℕ) (bs : List ℕ) {m : ℕ} → get_elem? bs i ≡ some m → sum (drop_at i bs) + m ≡ sum bs
sum-drop_at i [] h = cc
sum-drop_at zero (b ∷ bs) h = ground arith
sum-drop_at (suc i) (b ∷ bs) h = omega (arith, sum-drop_at i bs h)

length-drop_at :
    (i : ℕ) (bs : List ℕ) {m : ℕ} → get_elem? bs i ≡ some m → length (drop_at i bs) + 1 ≡ length bs
length-drop_at i [] h = cc
length-drop_at zero (b ∷ bs) h = omega arith
length-drop_at (suc i) (b ∷ bs) h = omega (arith, length-drop_at i bs h)

AtMost-sum : (bs : List ℕ) → AtMost bs → sum bs ≤ length bs * max_op_blocks
AtMost-sum [] h = omega arith
AtMost-sum (b ∷ bs) h = omega (arith, h.0, AtMost-sum bs h.1)

AtMost-set :
    (i n : ℕ) (bs : List ℕ) → get_elem? bs i ≡ some (suc n) → AtMost bs → AtMost (set bs i n)
AtMost-set i n [] e h = tt
AtMost-set zero n (b ∷ bs) e h = ground arith
AtMost-set (suc i) n (b ∷ bs) e h = (h.0, AtMost-set i n bs e h.1)

AtMost-drop_at : (i : ℕ) (bs : List ℕ) → AtMost bs → AtMost (drop_at i bs)
AtMost-drop_at i [] h = tt
AtMost-drop_at zero (b ∷ bs) h = h.1
AtMost-drop_at (suc i) (b ∷ bs) h = (h.0, AtMost-drop_at i bs h.1)

begin_op-Fits :
    (r : Running) {l : Log}
    → begin_op r.log ≡ admitted l
    → Fits r
    → Fits (record { log = l; budgets = max_op_blocks ∷ r.budgets })
unfolding begin_op
begin_op-Fits r e f = ground (arith, AtMost-sum r.budgets f.capped)

log_write-Fits :
    (r : Running) {l : Log} (i b n : ℕ)
    → get_elem? r.budgets i ≡ some (suc n)
    → log_write b r.log ≡ done l
    → Fits r
    → Fits (record { log = l; budgets = set r.budgets i n })
unfolding log_write
log_write-Fits r i b n at e f = ground (
  arith,
  length-absorb b r.log.lh,
  absorb-Distinct b r.log.lh,
  sum-set i n r.budgets at,
  length-set r.budgets i n,
  AtMost-set i n r.budgets at f.capped,
)

end_op-Fits :
    (r : Running) {l : Log} {n : ℕ} (i : ℕ)
    → get_elem? r.budgets i ≡ some n
    → end_op r.log ≡ done (false, l)
    → Fits r
    → Fits (record { log = l; budgets = drop_at i r.budgets })
unfolding end_op
end_op-Fits r i at e f = ground (
  arith,
  sum-drop_at i r.budgets at,
  length-drop_at i r.budgets at,
  AtMost-drop_at i r.budgets f.capped,
)

end_commit-Fits :
    (r : Running) {l : Log} {n : ℕ} (i : ℕ)
    → get_elem? r.budgets i ≡ some n
    → end_op r.log ≡ done (true, l)
    → Fits r
    → Fits (record { log = end_commit l; budgets = drop_at i r.budgets })
unfolding end_op end_commit
end_commit-Fits r i at e f = ground (
  arith,
  sum-drop_at i r.budgets at,
  length-drop_at i r.budgets at,
  AtMost-drop_at i r.budgets f.capped,
)

pub Moves-Fits : {r t : Running} → Fits r → Moves r t → Fits t
Moves-Fits f stay = f
Moves-Fits f (move {t = t} m (begins e)) = begin_op-Fits t e (Moves-Fits f m)
Moves-Fits f (move {t = t} m (writes i b n at e)) = log_write-Fits t i b n at e (Moves-Fits f m)
Moves-Fits f (move {t = t} m (ends i at e)) = end_op-Fits t i at e (Moves-Fits f m)
Moves-Fits f (move {t = t} m (commits i at e)) = end_commit-Fits t i at e (Moves-Fits f m)

size-Moves : {r t : Running} → Moves r t → t.log.size ≡ r.log.size
unfolding begin_op log_write end_op end_commit
size-Moves stay = refl
size-Moves (move m (begins e)) = ground (arith, size-Moves m)
size-Moves (move m (writes i b n at e)) = ground (arith, size-Moves m)
size-Moves (move m (ends i at e)) = ground (arith, size-Moves m)
size-Moves (move m (commits i at e)) = ground (arith, size-Moves m)

-- The log after `initlog`.
abbrev pub fresh : (start size : ℕ) → Running
fresh start size = record {
  log = record { start = start; size = size; outstanding = 0; committing = false; lh = [] };
  budgets = [];
}

fresh-Fits : (start size : ℕ) → Fits (fresh start size)
fresh-Fits start size = record {
  counted = refl;
  bounded = omega arith;
  capped = tt;
  idle = refl;
  distinct = tt;
}

-- In a log with more than `LOGSIZE` blocks, whatever operations begin, write within `MAXOPBLOCKS`
-- calls each, end and commit, a further `log_write` within the budget of an operation does not
-- panic, and the header lists at most `LOGSIZE` blocks, none of them twice.
pub log_write-succeeds :
    (start size b i n : ℕ) {r : Running}
    → log_size < size
    → Moves (fresh start size) r
    → get_elem? r.budgets i ≡ some (suc n)
    → (log_write b r.log ≡ done (record r.log { lh = absorb b r.log.lh }))
      × (length (absorb b r.log.lh) ≤ log_size)
      × Distinct (absorb b r.log.lh)
unfolding log_write
log_write-succeeds start size b i n {r} big m at =
    let f = Moves-Fits (fresh-Fits start size) m in
    (
      ground (arith, f, size-Moves m, sum-set i n r.budgets at, lt_of_get_elem? r.budgets i at),
      omega (arith, f.bounded, length-absorb b r.log.lh, sum-set i n r.budgets at),
      absorb-Distinct b r.log.lh f.distinct,
    )
