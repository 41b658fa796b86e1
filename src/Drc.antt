-- ===== src/Drc.antt =====
-- The duplicate request cache, src/rpc/drc.cpp and drc.hpp.
pub mod Cache
pub mod Purge
pub mod Log
pub mod Entries
pub mod Once
pub mod Steps
pub mod Trace
mod Tests
