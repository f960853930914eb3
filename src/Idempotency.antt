-- ===== src/Idempotency.antt =====
-- The submission-deduplication store of backend/services/idempotency.py.
pub mod Key
pub mod Sanitize
pub mod Record
pub mod Memory
pub mod Sqlite
pub mod Exclusive
pub mod Lifecycle
pub mod Agreement
pub mod Store
pub mod Waiting
pub mod Fingerprint
mod Tests
mod Trials
