-- ===== src/Approval.antt =====
-- The human approval workflow (backend/app/approval).
pub mod Models
pub mod Store
pub mod Service
pub mod Moves
pub mod Outcomes
pub mod Steps
pub mod Commit
pub mod Audit
pub mod Exclusive
pub mod Decisions
pub mod Transitions
mod Samples
