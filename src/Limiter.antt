-- ===== src/Limiter.antt =====
-- backend/core/limiter.py: who a request comes from, how many requests a caller may make in a
-- window, and how many WebSocket connections an employee may hold.
pub mod ClientIp
pub mod Spoofing
pub mod Local
pub mod Window
pub mod Tracker
pub mod Limits
mod Tests
