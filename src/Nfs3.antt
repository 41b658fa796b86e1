-- ===== src/Nfs3.antt =====
-- The wire enumerations of src/nfsv3/nfs3_types.hpp.
pub mod Status
pub mod Proc
