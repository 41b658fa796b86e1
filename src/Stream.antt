-- ===== src/Stream.antt =====
-- src/transport/record_stream.cpp: the records of a TCP connection.
pub mod Read
pub mod Flat
pub mod Framing
pub mod Found
pub mod Records
pub mod Bounds
mod Tests
