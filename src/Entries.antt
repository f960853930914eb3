-- ===== src/Entries.antt =====
-- backend/services/timecard_entries.py: which timecard entries are accepted, and what is filled in
-- before they are submitted.
pub mod Entry
pub mod Hours
pub mod Times
pub mod Assigned
pub mod Validate
pub mod Accepted
pub mod Resolve
pub mod Extract
mod Tests
