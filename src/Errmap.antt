-- ===== src/Errmap.antt =====
-- src/core/errmap.cpp: the errno of a backend as the status of a protocol.
pub mod Errno
pub mod V3
pub mod V4
pub mod ByError3
pub mod ByError4
pub mod Legal
mod Tests
