-- ===== src/Proc.antt =====
-- The process table of xv6-public/proc.c: creation, exit, waiting, sleeping, waking and killing.
pub mod Table
pub mod Create
pub mod Finish
pub mod Sleep
mod Tests
