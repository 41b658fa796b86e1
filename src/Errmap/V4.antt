-- ===== src/Errmap/V4.antt =====
-- The error tables of src/core/errmap.cpp for NFSv4.1 and NFSv4.2.
use lightnfs.Prelude.{ℕ, Bool, true, false, ◌||◌, List, [], ◌∷◌, ◌==◌, if◌then◌else◌}
use lightnfs.Nfs4.Status.{Status, ◌≟◌}
use lightnfs.Nfs4.Op.{Op}
use lightnfs.Errmap.Errno

-- The cases of the switch of `raw_mapping_v4`; any other error is IO.
abbrev pub v4_cases : List (ℕ × Status)
v4_cases =
    (Errno.eperm, Status.perm)
    ∷ (Errno.enoent, Status.noent)
    ∷ (Errno.eio, Status.io)
    ∷ (Errno.enxio, Status.nxio)
    ∷ (Errno.eacces, Status.access)
    ∷ (Errno.eexist, Status.exist)
    ∷ (Errno.exdev, Status.xdev)
    ∷ (Errno.enotdir, Status.notdir)
    ∷ (Errno.eisdir, Status.isdir)
    ∷ (Errno.einval, Status.inval)
    ∷ (Errno.efbig, Status.fbig)
    ∷ (Errno.enospc, Status.nospc)
    ∷ (Errno.erofs, Status.rofs)
    ∷ (Errno.emlink, Status.mlink)
    ∷ (Errno.enametoolong, Status.nametoolong)
    ∷ (Errno.enotempty, Status.notempty)
    ∷ (Errno.edquot, Status.dquot)
    ∷ (Errno.estale, Status.stale)
    ∷ (Errno.eopnotsupp, Status.notsupp)
    ∷ []

unfoldable pub in_cases : ℕ → List (ℕ × Status) → Status
in_cases e [] = Status.io
in_cases e ((f, s) ∷ cases) = if e == f then s else in_cases e cases

unfoldable pub raw_mapping : ℕ → Status
unfolding in_cases
raw_mapping e =
    if e == Errno.bad_handle
    then Status.badhandle
    else if e == Errno.jukebox
    then Status.delay
    else if e == Errno.moved
    then Status.moved
    else in_cases e v4_cases

unfoldable pub one_of : Status → List Status → Bool
unfolding ◌≟◌
one_of value [] = false
one_of value (c ∷ values) = c ≟ value || one_of value values

-- The cases of the switch: what each operation may answer beside the common results.
unfoldable pub row_allows : Op → Status → Bool
unfolding one_of
row_allows Op.lookup s = one_of s (
    Status.noent ∷ Status.notdir ∷ Status.nametoolong ∷ Status.badname ∷ Status.symlink
    ∷ Status.wrongsec ∷ [])
row_allows Op.lookupp s = one_of s (Status.noent ∷ Status.notdir ∷ Status.symlink ∷ [])
row_allows Op.getattr s = false
row_allows Op.verify s = false
row_allows Op.nverify s = false
row_allows Op.getfh s = false
row_allows Op.putfh s = false
row_allows Op.putrootfh s = false
row_allows Op.savefh s = false
row_allows Op.restorefh s = false
row_allows Op.access s = false
row_allows Op.readlink s = one_of s (Status.inval ∷ Status.wrong_type ∷ Status.notsupp ∷ [])
row_allows Op.read s = one_of s (
    Status.inval ∷ Status.isdir ∷ Status.wrong_type ∷ Status.openmode ∷ Status.bad_stateid
    ∷ Status.stale_stateid ∷ Status.old_stateid ∷ Status.grace ∷ Status.expired ∷ [])
row_allows Op.readdir s =
    one_of s
      (Status.notdir ∷ Status.bad_cookie ∷ Status.toosmall ∷ Status.inval ∷ Status.not_same ∷ [])
row_allows Op.open_op s = one_of s (
    Status.noent ∷ Status.notdir ∷ Status.isdir ∷ Status.symlink ∷ Status.wrong_type ∷ Status.rofs
    ∷ Status.exist ∷ Status.nospc ∷ Status.dquot ∷ Status.nametoolong ∷ Status.badname
    ∷ Status.share_denied ∷ Status.grace ∷ Status.no_grace ∷ Status.reclaim_bad
    ∷ Status.stale_clientid ∷ Status.inval ∷ Status.perm ∷ [])
row_allows Op.close s = one_of s (
    Status.bad_stateid ∷ Status.stale_stateid ∷ Status.old_stateid ∷ Status.expired ∷ Status.inval
    ∷ [])
row_allows Op.open_downgrade s = one_of s (
    Status.bad_stateid ∷ Status.stale_stateid ∷ Status.old_stateid ∷ Status.expired ∷ Status.inval
    ∷ [])
row_allows Op.write s = one_of s (
    Status.inval ∷ Status.isdir ∷ Status.wrong_type ∷ Status.openmode ∷ Status.bad_stateid
    ∷ Status.stale_stateid ∷ Status.old_stateid ∷ Status.grace ∷ Status.expired ∷ Status.rofs
    ∷ Status.fbig ∷ Status.nospc ∷ Status.dquot ∷ Status.locked ∷ [])
row_allows Op.commit s =
    one_of s (Status.inval ∷ Status.isdir ∷ Status.wrong_type ∷ Status.rofs ∷ [])
row_allows Op.setattr s = one_of s (
    Status.inval ∷ Status.isdir ∷ Status.perm ∷ Status.rofs ∷ Status.fbig ∷ Status.nospc
    ∷ Status.dquot ∷ Status.attrnotsupp ∷ Status.badowner ∷ Status.bad_stateid
    ∷ Status.stale_stateid ∷ Status.old_stateid ∷ Status.openmode ∷ Status.grace ∷ Status.expired
    ∷ Status.locked ∷ [])
row_allows Op.create s = one_of s (
    Status.noent ∷ Status.notdir ∷ Status.exist ∷ Status.rofs ∷ Status.nospc ∷ Status.dquot
    ∷ Status.nametoolong ∷ Status.badname ∷ Status.badtype ∷ Status.perm ∷ Status.inval
    ∷ Status.mlink ∷ Status.attrnotsupp ∷ Status.badowner ∷ Status.notsupp ∷ [])
row_allows Op.remove s = one_of s (
    Status.noent ∷ Status.notdir ∷ Status.notempty ∷ Status.rofs ∷ Status.nametoolong
    ∷ Status.badname ∷ Status.inval ∷ Status.perm ∷ Status.file_open ∷ [])
row_allows Op.rename s = one_of s (
    Status.noent ∷ Status.notdir ∷ Status.isdir ∷ Status.exist ∷ Status.notempty ∷ Status.xdev
    ∷ Status.rofs ∷ Status.nametoolong ∷ Status.badname ∷ Status.inval ∷ Status.perm ∷ Status.nospc
    ∷ Status.dquot ∷ Status.mlink ∷ Status.file_open ∷ Status.restorefh ∷ [])
row_allows Op.link s = one_of s (
    Status.noent ∷ Status.notdir ∷ Status.isdir ∷ Status.exist ∷ Status.xdev ∷ Status.rofs
    ∷ Status.nametoolong ∷ Status.badname ∷ Status.inval ∷ Status.perm ∷ Status.nospc ∷ Status.dquot
    ∷ Status.mlink ∷ Status.notsupp ∷ Status.wrong_type ∷ Status.restorefh ∷ [])
row_allows Op.lock s = one_of s (
    Status.inval ∷ Status.isdir ∷ Status.wrong_type ∷ Status.denied ∷ Status.bad_stateid
    ∷ Status.stale_stateid ∷ Status.old_stateid ∷ Status.openmode ∷ Status.grace ∷ Status.no_grace
    ∷ Status.reclaim_bad ∷ Status.expired ∷ Status.stale_clientid ∷ Status.bad_range
    ∷ Status.lock_range ∷ Status.lock_notsupp ∷ [])
row_allows Op.lockt s = one_of s (
    Status.inval ∷ Status.isdir ∷ Status.wrong_type ∷ Status.denied ∷ Status.bad_stateid
    ∷ Status.stale_stateid ∷ Status.old_stateid ∷ Status.openmode ∷ Status.grace ∷ Status.no_grace
    ∷ Status.reclaim_bad ∷ Status.expired ∷ Status.stale_clientid ∷ Status.bad_range
    ∷ Status.lock_range ∷ Status.lock_notsupp ∷ [])
row_allows Op.locku s = one_of s (
    Status.inval ∷ Status.isdir ∷ Status.wrong_type ∷ Status.denied ∷ Status.bad_stateid
    ∷ Status.stale_stateid ∷ Status.old_stateid ∷ Status.openmode ∷ Status.grace ∷ Status.no_grace
    ∷ Status.reclaim_bad ∷ Status.expired ∷ Status.stale_clientid ∷ Status.bad_range
    ∷ Status.lock_range ∷ Status.lock_notsupp ∷ [])
row_allows Op.secinfo s = one_of s (
    Status.noent ∷ Status.notdir ∷ Status.nametoolong ∷ Status.badname ∷ Status.inval
    ∷ Status.wrongsec ∷ [])
row_allows Op.secinfo_no_name s =
    one_of s (Status.noent ∷ Status.notdir ∷ Status.inval ∷ Status.wrongsec ∷ [])
row_allows Op.free_stateid s =
    one_of s (Status.bad_stateid ∷ Status.stale_stateid ∷ Status.locks_held ∷ [])
row_allows Op.test_stateid s = false
row_allows Op.reclaim_complete s = one_of s (Status.complete_already ∷ Status.stale_clientid ∷ [])
row_allows Op.seek s = one_of s (
    Status.inval ∷ Status.isdir ∷ Status.wrong_type ∷ Status.symlink ∷ Status.nxio ∷ Status.notsupp
    ∷ Status.union_notsupp ∷ Status.bad_stateid ∷ Status.stale_stateid ∷ Status.old_stateid
    ∷ Status.openmode ∷ Status.grace ∷ Status.expired ∷ [])
row_allows Op.allocate s = one_of s (
    Status.inval ∷ Status.isdir ∷ Status.wrong_type ∷ Status.symlink ∷ Status.notsupp
    ∷ Status.bad_stateid ∷ Status.stale_stateid ∷ Status.old_stateid ∷ Status.openmode
    ∷ Status.grace ∷ Status.expired ∷ Status.rofs ∷ Status.fbig ∷ Status.nospc ∷ Status.dquot ∷ [])
row_allows Op.deallocate s = one_of s (
    Status.inval ∷ Status.isdir ∷ Status.wrong_type ∷ Status.symlink ∷ Status.notsupp
    ∷ Status.bad_stateid ∷ Status.stale_stateid ∷ Status.old_stateid ∷ Status.openmode
    ∷ Status.grace ∷ Status.expired ∷ Status.rofs ∷ Status.fbig ∷ Status.nospc ∷ Status.dquot ∷ [])
row_allows Op.clone s = one_of s (
    Status.inval ∷ Status.isdir ∷ Status.wrong_type ∷ Status.symlink ∷ Status.notsupp
    ∷ Status.bad_stateid ∷ Status.stale_stateid ∷ Status.old_stateid ∷ Status.openmode
    ∷ Status.grace ∷ Status.expired ∷ Status.rofs ∷ Status.fbig ∷ Status.nospc ∷ Status.dquot
    ∷ Status.xdev ∷ Status.locked ∷ [])
row_allows Op.copy s = one_of s (
    Status.inval ∷ Status.isdir ∷ Status.wrong_type ∷ Status.symlink ∷ Status.notsupp
    ∷ Status.bad_stateid ∷ Status.stale_stateid ∷ Status.old_stateid ∷ Status.openmode
    ∷ Status.grace ∷ Status.expired ∷ Status.rofs ∷ Status.fbig ∷ Status.nospc ∷ Status.dquot
    ∷ Status.xdev ∷ Status.locked ∷ Status.offload_denied ∷ [])
row_allows _ s = true

unfoldable pub error_allowed : Op → Status → Bool
unfolding row_allows ◌≟◌
error_allowed p s =
    if s ≟ Status.ok
      || s ≟ Status.io
      || s ≟ Status.serverfault
      || s ≟ Status.stale
      || s ≟ Status.badhandle
      || s ≟ Status.access
      || s ≟ Status.delay
      || s ≟ Status.moved
    then true
    else row_allows p s

unfoldable pub to_v4 : ℕ → Op → Status
to_v4 e p = let mapped = raw_mapping e in if error_allowed p mapped then mapped else Status.io
