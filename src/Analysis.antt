-- ===== src/Analysis.antt =====
-- backend/app/analysis/engine.py: the findings of an uploaded file.
pub mod Groups
pub mod Grouped
pub mod Events
pub mod Sorted
pub mod Batch
pub mod Classify
pub mod BruteForce
pub mod Windows
pub mod Signatures
pub mod Catalog
pub mod Fired
pub mod Correlate
pub mod Guessed
pub mod SigmaPass
pub mod Lines
pub mod Report
pub mod Analyze
pub mod Totals
pub mod Hours
pub mod HoursOrder
pub mod Timeline
pub mod Built
pub mod Reports
pub mod Shown
mod Tests
mod ReportTests
