-- ===== src/Opens.antt =====
-- The open, lock and delegation states of src/state/state_mgr.cpp and state_mgr.hpp.
pub mod Types
pub mod Start
pub mod Unlink
pub mod Open
pub mod Exclusive
pub mod Created
pub mod Recalled
pub mod Rounds
pub mod Stateids
pub mod Io
pub mod Closed
pub mod Filed
pub mod Narrowed
mod Tests
