-- ===== src/Scan.antt =====
-- The SCAN stage: the taint engine, its rules and the scan service (backend/app/scan).
pub mod Syntax
pub mod Rule
pub mod Rules
pub mod Expressions
pub mod Sinks
pub mod Engine
pub mod Paths
pub mod Traces
pub mod Traced
pub mod Reachability
pub mod Flows
pub mod Origins
pub mod Trails
pub mod Coverage
pub mod Refinement
pub mod Service
pub mod Reports
pub mod Confidence
mod Samples
