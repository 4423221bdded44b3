-- ===== src/Ingestion.antt =====
-- backend/app/ingestion: from a submitted log to stored evidence, alerts and responses.
pub mod Regex
pub mod Dates
pub mod Windows
pub mod Linux
pub mod Normalizer
pub mod Service
pub mod Histories
pub mod Answers
mod Tests
