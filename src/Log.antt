-- ===== src/Log.antt =====
-- The write-ahead log of xv6-public/log.c: transactions, commit, and recovery after a crash.
pub mod Store
pub mod Commit
pub mod View
pub mod Header
pub mod Writes
pub mod Install
pub mod Recovery
pub mod Crash
pub mod Atomic
pub mod Calls
pub mod Budget
mod Tests
