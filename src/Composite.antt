-- ===== src/Composite.antt =====
-- Composite values as text: include/pqxx/composite.hxx and the field functions of
-- include/pqxx/internal/array-composite.hxx.
mod Tests
pub mod Buffer
pub mod Escaping
pub mod Reader
pub mod Writer
pub mod Fields
pub mod Reading
pub mod Cells
pub mod Writing
pub mod RoundTrip
pub mod Defects
