-- ===== src/Errmap/Errno.antt =====
-- `Errno` of src/util/errno.hpp: a POSIX number, as Linux has them, or a sentinel above them.
use lightnfs.Prelude.{ℕ}

abbrev pub eperm : ℕ
eperm = 1

abbrev pub enoent : ℕ
enoent = 2

abbrev pub eio : ℕ
eio = 5

abbrev pub enxio : ℕ
enxio = 6

abbrev pub eacces : ℕ
eacces = 13

abbrev pub eexist : ℕ
eexist = 17

abbrev pub exdev : ℕ
exdev = 18

abbrev pub enodev : ℕ
enodev = 19

abbrev pub enotdir : ℕ
enotdir = 20

abbrev pub eisdir : ℕ
eisdir = 21

abbrev pub einval : ℕ
einval = 22

abbrev pub efbig : ℕ
efbig = 27

abbrev pub enospc : ℕ
enospc = 28

abbrev pub erofs : ℕ
erofs = 30

abbrev pub emlink : ℕ
emlink = 31

abbrev pub enametoolong : ℕ
enametoolong = 36

abbrev pub enotempty : ℕ
enotempty = 39

abbrev pub edquot : ℕ
edquot = 122

abbrev pub estale : ℕ
estale = 116

abbrev pub eopnotsupp : ℕ
eopnotsupp = 95

abbrev pub jukebox : ℕ
jukebox = 3000

abbrev pub garbage : ℕ
garbage = 3001

abbrev pub eof : ℕ
eof = 3002

abbrev pub bad_handle : ℕ
bad_handle = 3003

abbrev pub moved : ℕ
moved = 3004

abbrev pub bad_verf : ℕ
bad_verf = 3005

abbrev pub ebadmsg : ℕ
ebadmsg = 74

abbrev pub emsgsize : ℕ
emsgsize = 90
