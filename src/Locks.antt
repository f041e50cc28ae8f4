-- ===== src/Locks.antt =====
-- xv6-public/sleeplock.c: the long-term locks of buffers and inodes. The spin lock inside one makes
-- each routine a single step; a call that has to wait is the value `none`, and is made again after a
-- wakeup. The name of a lock is not modelled.
use ele.Base.{ℕ, Bool, true, false, ◌&&◌, Option, none, some, ◌==◌, if◌then◌else◌}

-- `struct sleeplock`
pub record Sleeplock : Type 0 where
  pub locked : Bool
  pub pid : ℕ

abbrev pub initsleeplock : Sleeplock
initsleeplock = record { locked = false; pid = 0 }

-- `me` is `myproc()->pid`.
unfoldable pub acquiresleep : (me : ℕ) → Sleeplock → Option Sleeplock
acquiresleep me lk = if lk.locked then none else some (record { locked = true; pid = me })

unfoldable pub releasesleep : Sleeplock → Sleeplock
releasesleep lk = record { locked = false; pid = 0 }

unfoldable pub holdingsleep : (me : ℕ) → Sleeplock → Bool
holdingsleep me lk = lk.locked && lk.pid == me
