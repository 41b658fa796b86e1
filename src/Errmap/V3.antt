-- ===== src/Errmap/V3.antt =====
-- The error tables of src/core/errmap.cpp for NFSv3.
use lightnfs.Prelude.{ℕ, Bool, true, false, ◌||◌, not, List, [], ◌∷◌, ◌==◌, if◌then◌else◌}
use lightnfs.Nfs3.Status.{Status, ◌≟◌}
use lightnfs.Nfs3.Proc.{Proc}
use lightnfs.Nfs3.Proc.{◌≟◌ as ◌≟ᵖ◌}
use lightnfs.Errmap.Errno

-- The cases of the switch of `raw_mapping`; any other error is IO.
abbrev pub v3_cases : List (ℕ × Status)
v3_cases =
    (Errno.eperm, Status.perm)
    ∷ (Errno.enoent, Status.noent)
    ∷ (Errno.eio, Status.io)
    ∷ (Errno.enxio, Status.nxio)
    ∷ (Errno.eacces, Status.acces)
    ∷ (Errno.eexist, Status.exist)
    ∷ (Errno.exdev, Status.xdev)
    ∷ (Errno.enodev, Status.nodev)
    ∷ (Errno.enotdir, Status.notdir)
    ∷ (Errno.eisdir, Status.isdir)
    ∷ (Errno.einval, Status.inval)
    ∷ (Errno.efbig, Status.fbig)
    ∷ (Errno.enospc, Status.nospc)
    ∷ (Errno.erofs, Status.rofs)
    ∷ (Errno.emlink, Status.mlink)
    ∷ (Errno.enametoolong, Status.nametoolong)
    ∷ (Errno.enotempty, Status.notempty)
    ∷ (Errno.edquot, Status.dquot)
    ∷ (Errno.estale, Status.stale)
    ∷ (Errno.eopnotsupp, Status.notsupp)
    ∷ []

unfoldable pub in_cases : ℕ → List (ℕ × Status) → Status
in_cases e [] = Status.io
in_cases e ((f, s) ∷ cases) = if e == f then s else in_cases e cases

unfoldable pub raw_mapping : ℕ → Status
unfolding in_cases
raw_mapping e =
    if e == Errno.bad_handle
    then Status.badhandle
    else if e == Errno.jukebox
    then Status.jukebox
    else in_cases e v3_cases

unfoldable pub one_of : Status → List Status → Bool
unfolding ◌≟◌
one_of value [] = false
one_of value (c ∷ values) = c ≟ value || one_of value values

-- The cases of the switch: what each procedure may answer beside the common results.
unfoldable pub row_allows : Proc → Status → Bool
unfolding one_of
row_allows Proc.getattr s = false
row_allows Proc.lookup s =
    one_of s (Status.noent ∷ Status.acces ∷ Status.notdir ∷ Status.nametoolong ∷ [])
row_allows Proc.access s = false
row_allows Proc.readlink s = one_of s (Status.inval ∷ Status.acces ∷ Status.notsupp ∷ [])
row_allows Proc.read s =
    one_of s (Status.nxio ∷ Status.acces ∷ Status.isdir ∷ Status.inval ∷ Status.jukebox ∷ [])
row_allows Proc.readdir s =
    one_of s (Status.acces ∷ Status.notdir ∷ Status.bad_cookie ∷ Status.toosmall ∷ [])
row_allows Proc.readdirplus s =
    one_of s
      (Status.acces ∷ Status.notdir ∷ Status.bad_cookie ∷ Status.toosmall ∷ Status.notsupp ∷ [])
row_allows Proc.fsstat s = false
row_allows Proc.fsinfo s = false
row_allows Proc.pathconf s = false
row_allows Proc.setattr s = one_of s (
    Status.perm ∷ Status.acces ∷ Status.inval ∷ Status.nospc ∷ Status.rofs ∷ Status.dquot
    ∷ Status.not_sync ∷ Status.isdir ∷ Status.fbig ∷ Status.jukebox ∷ [])
row_allows Proc.write s = one_of s (
    Status.acces ∷ Status.fbig ∷ Status.dquot ∷ Status.inval ∷ Status.nospc ∷ Status.rofs
    ∷ Status.jukebox ∷ Status.isdir ∷ [])
row_allows Proc.create s = one_of s (
    Status.acces ∷ Status.exist ∷ Status.dquot ∷ Status.nametoolong ∷ Status.nospc ∷ Status.rofs
    ∷ Status.notdir ∷ Status.notsupp ∷ Status.jukebox ∷ [])
row_allows Proc.mkdir s = one_of s (
    Status.acces ∷ Status.exist ∷ Status.dquot ∷ Status.nametoolong ∷ Status.nospc ∷ Status.rofs
    ∷ Status.notdir ∷ Status.mlink ∷ [])
row_allows Proc.symlink s = one_of s (
    Status.acces ∷ Status.exist ∷ Status.dquot ∷ Status.nametoolong ∷ Status.nospc ∷ Status.rofs
    ∷ Status.notdir ∷ Status.notsupp ∷ [])
row_allows Proc.mknod s = one_of s (
    Status.acces ∷ Status.exist ∷ Status.dquot ∷ Status.nametoolong ∷ Status.nospc ∷ Status.rofs
    ∷ Status.notdir ∷ Status.notsupp ∷ Status.badtype ∷ Status.perm ∷ [])
row_allows Proc.remove s = one_of s (
    Status.noent ∷ Status.acces ∷ Status.nametoolong ∷ Status.notdir ∷ Status.rofs ∷ Status.isdir
    ∷ Status.perm ∷ Status.jukebox ∷ [])
row_allows Proc.rmdir s = one_of s (
    Status.noent ∷ Status.acces ∷ Status.inval ∷ Status.exist ∷ Status.nametoolong ∷ Status.notdir
    ∷ Status.notempty ∷ Status.rofs ∷ Status.notsupp ∷ Status.perm ∷ [])
row_allows Proc.rename s = one_of s (
    Status.noent ∷ Status.acces ∷ Status.exist ∷ Status.xdev ∷ Status.notdir ∷ Status.isdir
    ∷ Status.inval ∷ Status.nospc ∷ Status.mlink ∷ Status.nametoolong ∷ Status.notempty
    ∷ Status.dquot ∷ Status.rofs ∷ Status.notsupp ∷ Status.jukebox ∷ [])
row_allows Proc.link s = one_of s (
    Status.acces ∷ Status.exist ∷ Status.xdev ∷ Status.mlink ∷ Status.nametoolong ∷ Status.noent
    ∷ Status.notdir ∷ Status.dquot ∷ Status.rofs ∷ Status.inval ∷ Status.notsupp ∷ Status.perm
    ∷ Status.nospc ∷ [])
row_allows Proc.commit s = false
row_allows _ s = true

unfoldable pub error_allowed : Proc → Status → Bool
unfolding row_allows ◌≟◌ ◌≟ᵖ◌
error_allowed p s =
    if s ≟ Status.ok || s ≟ Status.io || s ≟ Status.serverfault
    then true
    else if s ≟ Status.stale || s ≟ Status.badhandle
    then not (p ≟ᵖ Proc.null)
    else row_allows p s

unfoldable pub to_v3 : ℕ → Proc → Status
to_v3 e p = let mapped = raw_mapping e in if error_allowed p mapped then mapped else Status.io
