-- ===== src/Pilot.antt =====
-- The plan of the pilot experiment: experiments/pilot_planning.py and pilot_contracts.py.
pub mod Metadata
pub mod Select
pub mod RelativePath
pub mod Condition
pub mod Inventory
pub mod Schedule
