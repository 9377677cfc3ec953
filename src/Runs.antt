-- ===== src/Runs.antt =====
-- Scan runs, their stage records, execution history and finding lineage (backend/app/scan/run_*.py).
pub mod Models
pub mod Store
pub mod Reads
pub mod Service
pub mod Lookups
pub mod Counts
pub mod Executions
pub mod Scans
pub mod Lineage
mod Samples
