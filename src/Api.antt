-- ===== src/Api.antt =====
-- backend/api/v1/timecards.py: the requests of a signed-in employee.
pub mod RequestIds
pub mod Submit
mod Trials
