-- ===== src/Models.antt =====
-- The database rows (backend/app/models/*.py), one child for each group of tables.
pub mod Json
pub mod Log
pub mod Agent
pub mod Alert
pub mod Soar
pub mod User
