-- ===== src/Range.antt =====
-- Ranges: include/pqxx/range.hxx.
mod Tests
pub mod Bounds
pub mod Ranges
pub mod Order
pub mod Selection
pub mod Intersection
pub mod Conversion
pub mod Text
pub mod Limits
pub mod Writing
pub mod RoundTrip
