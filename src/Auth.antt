-- ===== src/Auth.antt =====
-- backend/app/auth, backend/app/security and the routes of backend/app/api/routes/auth.py and
-- mfa.py: passwords, the account lock, the second factor, tokens and sessions.
pub mod Accounts
pub mod Lockout
pub mod Totp
pub mod Password
pub mod Tokens
pub mod Mfa
pub mod Session
pub mod Login
pub mod Access
pub mod Rows
pub mod Signin
pub mod SecondFactor
pub mod Guessing
pub mod Backup
pub mod Calls
pub mod Kept
pub mod Revocation
mod Tests
