-- ===== src/Realtime.antt =====
-- backend/app/realtime/hub.py and backend/app/api/routes/stream.py: the console's live connection.
pub mod Places
pub mod Hub
pub mod Stream
pub mod Replay
pub mod InTurn
pub mod Capacity
pub mod Delivery
mod Tests
