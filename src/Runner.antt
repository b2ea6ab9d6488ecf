-- ===== src/Runner.antt =====
-- The task runner (runner/*.py).
pub mod Task
pub mod Plan
pub mod Resource
pub mod Record
pub mod Transition
pub mod State
pub mod Scheduler
pub mod Execute
