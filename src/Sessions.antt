-- ===== src/Sessions.antt =====
-- The sessions of src/state/state_mgr.cpp and state_mgr.hpp: SEQUENCE and its slots.
pub mod Types
pub mod Sequence
pub mod Bind
pub mod Slots
pub mod Sized
pub mod Steps
pub mod Log
pub mod Fixed
pub mod Begin
pub mod Ends
pub mod Trace
pub mod Replay
pub mod Admits
mod Tests
