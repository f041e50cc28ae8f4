-- ===== src/Mlfq.antt =====
-- The scheduler of project 2: the multi-level feedback queues L0 to L3 and the monopoly queue (99)
-- over the process table (xv6-public/proc.c), and the clock tick that drives them (trap.c).
pub mod Queues
pub mod Calls
pub mod Scheduler
pub mod Trap
pub mod RoundRobin
pub mod Priority
pub mod Choice
pub mod Rounds
pub mod Counter
pub mod Steps
pub mod Leave
pub mod Demotion
pub mod Samples
pub mod Placed
mod Tests
