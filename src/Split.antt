-- ===== src/Split.antt =====
-- The deterministic splits of a data set: splits/contracts.py and splits/selection.py.
pub mod Config
pub mod Candidate
pub mod Folds
pub mod Counts
pub mod Constraint
pub mod Groups
pub mod Select
