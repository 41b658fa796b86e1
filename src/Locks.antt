-- ===== src/Locks.antt =====
-- src/state/lock_mgr.hpp and lock_mgr.cpp, with the lock types of src/backend/api.hpp.
pub mod Types
pub mod Segs
pub mod Coverage
pub mod Proper
pub mod Canonical
pub mod Table
pub mod Files
pub mod Account
pub mod Grant
pub mod Steps
pub mod Drops
pub mod Safety
pub mod Answers
pub mod Unlock
mod Tests
