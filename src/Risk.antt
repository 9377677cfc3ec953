-- ===== src/Risk.antt =====
-- Risk scoring, SLA tracking and escalation (backend/app/risk).
pub mod Models
pub mod Scoring
pub mod Sla
mod Samples
