-- ===== src/Log/Calls.antt =====
-- `begin_op`, `end_op` and `log_write` of log.c over the in-memory log. The header is the list of
-- its first `lh.n` block numbers. A pass of `begin_op` takes a place in the log or goes to sleep.
use ele.Base.{
  ℕ, ◌+◌, ◌-◌, ◌*◌, Bool, true, false, ◌||◌, List, [], ◌∷◌, ltb, leb, ◌==◌, if◌then◌else◌, length,
  Outcome, done, panic,
}

-- `MAXOPBLOCKS` and `LOGSIZE` of param.h.
abbrev pub max_op_blocks : ℕ
max_op_blocks = 10

abbrev pub log_size : ℕ
log_size = 30

-- `struct log`
pub record Log : Type 0 where
  pub start : ℕ
  pub size : ℕ
  pub outstanding : ℕ
  pub committing : Bool
  pub lh : List ℕ

pub data Begun : Type 0 where
  admitted : Log → Begun
  sleeps : Begun

unfoldable pub begin_op : Log → Begun
begin_op l =
    if l.committing
    then sleeps
    else (if ltb log_size (length l.lh + (l.outstanding + 1) * max_op_blocks)
        then sleeps
        else admitted (record l { outstanding = l.outstanding + 1 }))

-- The section of `end_op` under the lock: the new state, and whether it commits (`do_commit`). With no
-- operation outstanding it does not commit, as in the source, where the `int` becomes -1; the count
-- here stays 0.
unfoldable pub end_op : Log → Outcome (Bool × Log)
end_op l =
    let left = record l { outstanding = l.outstanding - 1 } in
    if l.committing
    then panic
    else (if l.outstanding == 1
        then done (true, record left { committing = true })
        else done (false, left))

-- The section after `commit`, which has emptied the header.
unfoldable pub end_commit : Log → Log
end_commit l = record l { lh = []; committing = false }

-- The loop of `log_write` and the assignments after it: a block that is listed is absorbed.
unfoldable pub absorb : ℕ → List ℕ → List ℕ
absorb b [] = b ∷ []
absorb b (h ∷ hs) = if h == b then h ∷ hs else h ∷ absorb b hs

unfoldable pub log_write : ℕ → Log → Outcome Log
log_write b l =
    if leb log_size (length l.lh) || leb (l.size - 1) (length l.lh)
    then panic
    else (if ltb l.outstanding 1 then panic else done (record l { lh = absorb b l.lh }))
