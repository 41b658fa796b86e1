-- ===== src/Nfs3/Proc.antt =====
-- `Proc` of src/nfsv3/nfs3_types.hpp.
use lightnfs.Prelude.{ℕ, ◌==◌, Bool}

pub data Proc : Type 0 where
  null getattr setattr lookup access readlink read write : Proc
  create mkdir symlink mknod remove rmdir rename link : Proc
  readdir readdirplus fsstat fsinfo pathconf commit : Proc

-- The procedure number of RFC 1813.
unfoldable pub code : Proc → ℕ
code null = 0
code getattr = 1
code setattr = 2
code lookup = 3
code access = 4
code readlink = 5
code read = 6
code write = 7
code create = 8
code mkdir = 9
code symlink = 10
code mknod = 11
code remove = 12
code rmdir = 13
code rename = 14
code link = 15
code readdir = 16
code readdirplus = 17
code fsstat = 18
code fsinfo = 19
code pathconf = 20
code commit = 21

-- Two of them are one if their numbers are.
infix 50 ◌≟◌
unfoldable pub ◌≟◌ : Proc → Proc → Bool
unfolding code
a ≟ b = code a == code b
