-- ===== src/Engine.antt =====
-- src/engine.c: scenario validation, initialisation, the scheduler's view of the threads, one step,
-- and a run along a schedule.
pub mod Init
pub mod Threads
pub mod Handlers
pub mod Step
pub mod Run
