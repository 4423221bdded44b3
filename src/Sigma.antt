-- ===== src/Sigma.antt =====
-- backend/app/detection/sigma.py: Sigma rules, their conditions and the matching of events.
pub mod Run
pub mod Tokens
pub mod Parser
pub mod Grammar
pub mod Total
pub mod RoundTrip
pub mod Written
pub mod Quantified
pub mod Condition
pub mod Values
pub mod Matching
pub mod Loading
pub mod Modifiers
pub mod Loaded
mod Tests
