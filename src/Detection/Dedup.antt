-- ===== src/Detection/Dedup.antt =====
-- Deduplication: what every handler of backend/app/detection/rules may do to the table of alerts.
pub mod Outcome
pub mod Unique
