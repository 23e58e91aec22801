-- ===== src/Encoding.antt =====
-- Text encodings: include/pqxx/encoding_group.hxx, include/pqxx/internal/encodings.hxx and
-- src/encodings.cxx. `Scanner` finds where a character ends, `Finder` looks for ASCII characters,
-- `Group` classifies an encoding by its name, and `Text` says what well encoded text is.
mod Tests
pub mod Accepting
pub mod Scanner
pub mod Finder
pub mod Group
pub mod Text
pub mod Search
