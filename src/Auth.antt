-- ===== src/Auth.antt =====
-- backend/core/auth.py: who signs in, and what a session token is worth.
pub mod Password
pub mod Users
pub mod Settings
pub mod Session
pub mod Oidc
pub mod Verifier
mod Tests
mod Trials
