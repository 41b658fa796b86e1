-- ===== src/Grace.antt =====
-- The grace windows of src/state/state_mgr.cpp and state_mgr.hpp.
pub mod Windows
pub mod Periods
pub mod Same
pub mod Calls
pub mod Refines
pub mod Ends
mod Tests
