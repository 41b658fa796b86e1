-- ===== src/Nfs4/Op.antt =====
-- `Op` of src/nfsv4/nfs4_types.hpp.
use lightnfs.Prelude.{ℕ, ◌==◌, Bool}

pub data Op : Type 0 where
  access close commit create delegreturn getattr getfh link : Op
  lock lockt locku lookup lookupp nverify open_op openattr : Op
  open_downgrade putfh putpubfh putrootfh read readdir readlink remove : Op
  rename restorefh savefh secinfo setattr verify write bind_conn_to_session : Op
  exchange_id create_session destroy_session free_stateid secinfo_no_name sequence test_stateid
        destroy_clientid :
      Op
  reclaim_complete allocate copy copy_notify deallocate io_advise layouterror layoutstats : Op
  offload_cancel offload_status read_plus seek write_same clone get_xattr set_xattr : Op
  list_xattrs remove_xattr illegal : Op

-- The operation number of RFC 8881 and RFC 7862.
unfoldable pub code : Op → ℕ
code access = 3
code close = 4
code commit = 5
code create = 6
code delegreturn = 8
code getattr = 9
code getfh = 10
code link = 11
code lock = 12
code lockt = 13
code locku = 14
code lookup = 15
code lookupp = 16
code nverify = 17
code open_op = 18
code openattr = 19
code open_downgrade = 21
code putfh = 22
code putpubfh = 23
code putrootfh = 24
code read = 25
code readdir = 26
code readlink = 27
code remove = 28
code rename = 29
code restorefh = 31
code savefh = 32
code secinfo = 33
code setattr = 34
code verify = 37
code write = 38
code bind_conn_to_session = 41
code exchange_id = 42
code create_session = 43
code destroy_session = 44
code free_stateid = 45
code secinfo_no_name = 52
code sequence = 53
code test_stateid = 55
code destroy_clientid = 57
code reclaim_complete = 58
code allocate = 59
code copy = 60
code copy_notify = 61
code deallocate = 62
code io_advise = 63
code layouterror = 64
code layoutstats = 65
code offload_cancel = 66
code offload_status = 67
code read_plus = 68
code seek = 69
code write_same = 70
code clone = 71
code get_xattr = 72
code set_xattr = 73
code list_xattrs = 74
code remove_xattr = 75
code illegal = 10044

-- Two of them are one if their numbers are.
infix 50 ◌≟◌
unfoldable pub ◌≟◌ : Op → Op → Bool
unfolding code
a ≟ b = code a == code b
