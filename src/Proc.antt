-- ===== src/Proc.antt =====
-- proc.c: the process table, the multi-level feedback queue and the scheduler.
pub mod State
pub mod Queue
pub mod Sched
pub mod Reach
