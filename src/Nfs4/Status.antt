-- ===== src/Nfs4/Status.antt =====
-- `Status` of src/nfsv4/nfs4_types.hpp.
use lightnfs.Prelude.{ℕ, ◌==◌, Bool}

pub data Status : Type 0 where
  ok perm noent io nxio access exist xdev : Status
  notdir isdir inval fbig nospc rofs mlink nametoolong : Status
  notempty dquot stale badhandle bad_cookie notsupp toosmall serverfault : Status
  badtype delay same denied expired locked grace fhexpired : Status
  share_denied wrongsec clid_inuse resource moved nofilehandle minor_vers_mismatch stale_clientid :
      Status
  stale_stateid old_stateid bad_stateid not_same attrnotsupp symlink restorefh no_grace : Status
  reclaim_bad badxdr locks_held openmode badowner badchar badname bad_range : Status
  lock_notsupp lock_range file_open op_illegal badsession badslot complete_already conn_not_bound :
      Status
  seq_misordered sequence_pos req_too_big rep_too_big rep_too_big_to_cache retry_uncached_rep
        too_many_ops not_only_op :
      Status
  op_not_in_session clientid_busy bad_high_slot wrong_type union_notsupp offload_denied
        offload_no_reqs :
      Status

-- The `nfsstat4` on the wire.
unfoldable pub code : Status → ℕ
code ok = 0
code perm = 1
code noent = 2
code io = 5
code nxio = 6
code access = 13
code exist = 17
code xdev = 18
code notdir = 20
code isdir = 21
code inval = 22
code fbig = 27
code nospc = 28
code rofs = 30
code mlink = 31
code nametoolong = 63
code notempty = 66
code dquot = 69
code stale = 70
code badhandle = 10001
code bad_cookie = 10003
code notsupp = 10004
code toosmall = 10005
code serverfault = 10006
code badtype = 10007
code delay = 10008
code same = 10009
code denied = 10010
code expired = 10011
code locked = 10012
code grace = 10013
code fhexpired = 10014
code share_denied = 10015
code wrongsec = 10016
code clid_inuse = 10017
code resource = 10018
code moved = 10019
code nofilehandle = 10020
code minor_vers_mismatch = 10021
code stale_clientid = 10022
code stale_stateid = 10023
code old_stateid = 10024
code bad_stateid = 10025
code not_same = 10027
code attrnotsupp = 10032
code symlink = 10029
code restorefh = 10030
code no_grace = 10033
code reclaim_bad = 10034
code badxdr = 10036
code locks_held = 10037
code openmode = 10038
code badowner = 10039
code badchar = 10040
code badname = 10041
code bad_range = 10042
code lock_notsupp = 10043
code lock_range = 10028
code file_open = 10046
code op_illegal = 10044
code badsession = 10052
code badslot = 10053
code complete_already = 10054
code conn_not_bound = 10055
code seq_misordered = 10063
code sequence_pos = 10064
code req_too_big = 10065
code rep_too_big = 10066
code rep_too_big_to_cache = 10067
code retry_uncached_rep = 10068
code too_many_ops = 10070
code not_only_op = 10081
code op_not_in_session = 10071
code clientid_busy = 10074
code bad_high_slot = 10077
code wrong_type = 10083
code union_notsupp = 10090
code offload_denied = 10091
code offload_no_reqs = 10094

-- Two of them are one if their numbers are.
infix 50 ◌≟◌
unfoldable pub ◌≟◌ : Status → Status → Bool
unfolding code
a ≟ b = code a == code b
