-- ===== src/Nfs4.antt =====
-- The wire enumerations of src/nfsv4/nfs4_types.hpp.
pub mod Status
pub mod Op
