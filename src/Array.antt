-- ===== src/Array.antt =====
-- SQL arrays as text: include/pqxx/internal/array-composite.hxx and src/array.cxx.
-- `Quoted` scans and parses strings inside arrays and composite values, `Writer` writes arrays,
-- `Parser` is `array_parser`, and `RoundTrip` proves that they fit.
mod Tests
pub mod Quoted
pub mod Escaped
pub mod Unescaping
pub mod Writer
pub mod Parser
pub mod Items
pub mod Writing
pub mod WritingAll
pub mod Reading
pub mod RoundTrip
pub mod Extents
pub mod RowMajor
pub mod Indexing
pub mod Container
pub mod Elements
pub mod ItemReading
pub mod Filling
pub mod OneDimension
