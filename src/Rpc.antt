-- ===== src/Rpc.antt =====
-- src/rpc: the call header, authentication and dispatch.
pub mod Call
pub mod Parse
pub mod Hash
pub mod Auth
pub mod Dispatch
pub mod Programs
pub mod Accepts
pub mod Answers
pub mod Mismatch
mod Tests
