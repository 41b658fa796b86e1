-- ===== src/Clients.antt =====
-- The clients of src/state/state_mgr.cpp and state_mgr.hpp.
pub mod Types
pub mod Start
pub mod Exchange
pub mod Session
pub mod Leave
pub mod Scan
pub mod Kept
pub mod Kills
pub mod View
pub mod Tables
pub mod Moves
pub mod Registers
pub mod Confirms
pub mod Leaves
pub mod Requests
pub mod Run
pub mod Granted
pub mod Created
pub mod Unlinked
pub mod Reboot
pub mod First
mod Tests
