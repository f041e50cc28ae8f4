-- ===== src/Log/Commit.antt =====
-- `install_trans`, `read_head`, `write_head`, `recover_from_log`, `write_log` and `commit` of
-- log.c. The in-memory header is the list of its first `lh.n` block numbers; `start` is
-- `log.start`.
use ele.Log.Store.{Block, Store, bread, bwrite}
use ele.Base.{ℕ, zero, suc, ◌+◌, List, [], ◌∷◌, ltb, if◌then◌else◌, length, get_or, set}

-- The loop of `read_head`, from index `i` on with `n` rounds left.
unfoldable pub read_words : ℕ → (i : ℕ) → Block → List ℕ
read_words zero i b = []
read_words (suc n) i b = get_or b (1 + i) 0 ∷ read_words n (suc i) b

-- `hb->n`, then `hb->block[]`.
unfoldable pub get_header : Block → List ℕ
get_header b = read_words (get_or b 0 0) 0 b

-- The loop of `write_head`.
unfoldable pub write_words : (i : ℕ) → List ℕ → Block → Block
write_words i [] b = b
write_words i (h ∷ hs) b = write_words (suc i) hs (set b (1 + i) h)

unfoldable pub put_header : List ℕ → Block → Block
put_header lh b = write_words 0 lh (set b 0 (length lh))

module _ (start : ℕ) where
  unfoldable pub read_head : Store → List ℕ
  read_head s = get_header (bread s start)

  unfoldable pub write_head : List ℕ → Store → Store
  write_head lh s = bwrite start (put_header lh (bread s start)) s

  -- From index `tail` on: each log block is copied to its home.
  unfoldable pub install_trans : (tail : ℕ) → List ℕ → Store → Store
  install_trans tail [] s = s
  install_trans tail (b ∷ bs) s =
      install_trans (suc tail) bs (bwrite b (bread s (start + tail + 1)) s)

  -- From index `tail` on: each cached block is copied to the log.
  unfoldable pub write_log : (tail : ℕ) → List ℕ → Store → Store
  write_log tail [] s = s
  write_log tail (b ∷ bs) s = write_log (suc tail) bs (bwrite (start + tail + 1) (bread s b) s)

  -- The header in memory is empty afterwards.
  unfoldable pub recover_from_log : Store → Store
  recover_from_log s = write_head [] (install_trans 0 (read_head s) s)

  unfoldable pub commit : List ℕ → Store → Store
  commit lh s =
      if ltb 0 (length lh)
      then write_head [] (install_trans 0 lh (write_head lh (write_log 0 lh s)))
      else s
