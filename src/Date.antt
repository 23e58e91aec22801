-- ===== src/Date.antt =====
-- Dates: src/time.cxx and include/pqxx/time.hxx.
mod Tests
pub mod Text
pub mod Digits
pub mod RoundTrip
