-- ===== src/Sessions.antt =====
-- backend/core/token_blocklist.py: the sessions of signed-in employees, in Redis or, where that is
-- allowed, in memory, and which of them are revoked.
pub mod Session
pub mod Connection
pub mod Store
pub mod Denied
pub mod Answers
mod Tests
