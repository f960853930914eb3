-- ===== src/Python.antt =====
-- What the code uses of Python itself: texts, numbers, and the values that `json.loads` returns.
pub mod Text
pub mod Append
pub mod Bytes
pub mod Search
pub mod Number
pub mod Value
pub mod Split
