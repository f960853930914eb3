-- ===== src/Otl.antt =====
-- backend/services/otl_client.py: the requests to Oracle Fusion.
pub mod Credential
pub mod Retry
pub mod Results
pub mod Preflight
pub mod Mapping
pub mod Create
pub mod Submit
pub mod Query
pub mod Statuses
mod Tests
mod Trials
