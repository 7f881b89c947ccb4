-- ===== src/Sched.antt =====
-- P2A: Scheduling/proc.c: the process table and its lottery scheduler.
pub mod Table
pub mod Lottery
pub mod Sleep
pub mod Services
pub mod Life
pub mod Tickets
pub mod Steps
pub mod Tests
