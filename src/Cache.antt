-- ===== src/Cache.antt =====
-- The content-addressed artifact cache (cache/*.py).
pub mod Identity
pub mod Manifest
pub mod Files
pub mod Entry
pub mod Store
pub mod Scan
pub mod Index
pub mod FaultPolicy
pub mod Faults
pub mod Probes
