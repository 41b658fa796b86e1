-- ===== src/Nfs3/Status.antt =====
-- `Status` of src/nfsv3/nfs3_types.hpp.
use lightnfs.Prelude.{ℕ, ◌==◌, Bool}

pub data Status : Type 0 where
  ok perm noent io nxio acces exist xdev : Status
  nodev notdir isdir inval fbig nospc rofs mlink : Status
  nametoolong notempty dquot stale remote badhandle not_sync bad_cookie : Status
  notsupp toosmall serverfault badtype jukebox : Status

-- The `nfsstat3` on the wire.
unfoldable pub code : Status → ℕ
code ok = 0
code perm = 1
code noent = 2
code io = 5
code nxio = 6
code acces = 13
code exist = 17
code xdev = 18
code nodev = 19
code notdir = 20
code isdir = 21
code inval = 22
code fbig = 27
code nospc = 28
code rofs = 30
code mlink = 31
code nametoolong = 63
code notempty = 66
code dquot = 69
code stale = 70
code remote = 71
code badhandle = 10001
code not_sync = 10002
code bad_cookie = 10003
code notsupp = 10004
code toosmall = 10005
code serverfault = 10006
code badtype = 10007
code jukebox = 10008

-- Two of them are one if their numbers are.
infix 50 ◌≟◌
unfoldable pub ◌≟◌ : Status → Status → Bool
unfolding code
a ≟ b = code a == code b
