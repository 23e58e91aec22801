-- ===== src/Stream.antt =====
-- COPY streams: src/stream_to.cxx, include/pqxx/stream_to.hxx and src/stream_from.cxx.
mod Tests
pub mod Writer
pub mod Reader
pub mod Lines
pub mod Writing
pub mod Parsing
pub mod RoundTrip
