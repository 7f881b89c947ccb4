-- ===== src/Threads.antt =====
-- P3B: xv6 Kernel threads: the ticket lock of ulib.c, threads in the kernel's proc.c, and the calls of
-- ulib.c that create and join them.
pub mod Lock
pub mod Kernel
pub mod Slots
pub mod Scan
pub mod Join
pub mod Clone
pub mod Create
pub mod Size
mod Tests
