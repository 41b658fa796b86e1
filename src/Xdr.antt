-- ===== src/Xdr.antt =====
-- src/xdr/xdr.hpp.
pub mod Decode
pub mod Flat
pub mod Chain
pub mod Written
pub mod Suffix
mod Tests
