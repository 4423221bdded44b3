-- ===== src/Triage.antt =====
-- backend/app/api/routes/alerts.py: the triage and the deletion of alerts.
pub mod Routes
pub mod Trail
pub mod Deletion
mod Tests
