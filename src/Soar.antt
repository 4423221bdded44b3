-- ===== src/Soar.antt =====
-- backend/app/soar: the containment that an alert warrants (engine.py), the guard rails and the
-- orders for the response agents (executor.py), and what their states go through.
pub mod Guard
pub mod Orders
pub mod Agents
pub mod Decide
pub mod Lifecycle
pub mod Delivery
pub mod Guarded
pub mod Recorded
pub mod Routes
pub mod Containment
pub mod Histories
mod Tests
