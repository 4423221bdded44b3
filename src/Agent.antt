-- ===== src/Agent.antt =====
-- agent/kill_switch_agent_v2.py, the response agent of an endpoint: signatures, its ledger, and what it does
-- with orders.
pub mod Ledger
pub mod Orders
pub mod Signature
pub mod Replay
pub mod Chain
pub mod Release
mod Tests
