-- ===== src/Errmap/Tests.antt =====
-- The error mapping of src/core/errmap.cpp at concrete errors.
use lightnfs.Prelude.{◌≡◌, refl}
use lightnfs.Nfs3.Status as Status3
use lightnfs.Nfs3.Proc.{Proc}
use lightnfs.Nfs3.Proc as Proc3
use lightnfs.Nfs4.Status as Status4
use lightnfs.Nfs4.Op.{Op}
use lightnfs.Errmap.Errno
use lightnfs.Errmap.V3
use lightnfs.Errmap.V4
use lightnfs.Errmap.ByError3
use lightnfs.Errmap.ByError4
use lightnfs.Errmap.Legal.{to_v3-jukebox, to_v4_transient}

-- A full disk is not in the error set of LOOKUP.
nospc_lookup : V3.to_v3 Errno.enospc Proc.lookup ≡ Status3.Status.io
unfolding V3.to_v3 V3.raw_mapping V3.error_allowed
nospc_lookup = refl

nospc_write : V4.to_v4 Errno.enospc Op.write ≡ Status4.Status.nospc
unfolding V4.to_v4 V4.raw_mapping V4.error_allowed
nospc_write = refl

to_v3-jukebox_example : V3.to_v3 Errno.jukebox Proc.lookup ≡ Status3.Status.io
unfolding Proc3.◌≟◌
to_v3-jukebox_example = to_v3-jukebox Proc.lookup

to_v4_transient_example :
    (V4.to_v4 Errno.jukebox Op.read ≡ Status4.Status.delay)
    × (V4.to_v4 Errno.moved Op.read ≡ Status4.Status.moved)
to_v4_transient_example = to_v4_transient Op.read
