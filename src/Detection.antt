-- ===== src/Detection.antt =====
-- backend/app/detection: the alert service, the rules, the engine that runs them, and what they
-- keep true of the table of alerts.
pub mod Alerting
pub mod Rules
pub mod Engine
pub mod Dedup
pub mod Added
pub mod Cooldown
mod Tests
