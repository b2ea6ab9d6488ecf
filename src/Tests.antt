-- ===== src/Tests.antt =====
-- Concrete runs of the modelled code, and the theorems at concrete inputs.
mod Samples
mod StateRuns
mod StoreRuns
mod IndexRuns
mod SchedulerRuns
mod EvidenceRuns
mod ExecuteRuns
mod SplitRuns
mod TransformRuns
mod PilotRuns
mod RowRuns
mod ScheduleRuns
mod InventoryRuns
