-- ===== src/Proc.antt =====
-- kernel/src/proc: processes, threads, the scheduler and the table of CPUs.
pub mod Process
pub mod Thread
pub mod Scheduler
pub mod PerCpu
