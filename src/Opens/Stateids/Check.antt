-- ===== src/Opens/Stateids/Check.antt =====
-- `check_io` and `lookup_stateid` of src/state/state_mgr.cpp. `is_special` is of
-- src/nfsv4/nfs4_types.cpp.
use lightnfs.Prelude.{
  ℕ, ◌-◌, ◌%◌, ◌^◌, bit_xor, Bool, true, false, ◌&&◌, ◌||◌, not, Option, none, some, List, [], ◌∷◌,
  ltb, ◌==◌, if◌then◌else◌, bytes_eq, any_bit, take,
}
use lightnfs.Maps.{bytes, number, find}
use lightnfs.Nfs4.Status.{Status}
use lightnfs.Locks.Types.{ObjId, FileKey, key_eq}
use lightnfs.Grace.Windows.{is_nil, in_grace}
use lightnfs.Sessions.Types.{StateMgr}
use lightnfs.Opens.Types.{StateType, file, open_state, lock_state, deleg_state}
use lightnfs.Opens.Unlink.{each, file_key}
use lightnfs.Opens.Open.{Stateid, file_or_new, is_dead, live_delegs, start_recall}
use lightnfs.Clients.Session.{le_bytes}

abbrev pub all_bytes : ℕ → List ℕ → Bool
all_bytes b [] = true
all_bytes b (x ∷ xs) = let rest = all_bytes b xs in x == b && rest

unfoldable pub is_all_one : Stateid → Bool
is_all_one sid = sid.seqid == 2 ^ 32 - 1 && all_bytes 255 sid.other

unfoldable pub is_special : Stateid → Bool
unfolding is_all_one
is_special sid = (sid.seqid == 0 && all_bytes 0 sid.other) || is_all_one sid

-- Whether the stateid is of this epoch: its first four bytes.
unfoldable pub is_current : StateMgr → Stateid → Bool
unfolding le_bytes
is_current m sid = bytes_eq (take 4 sid.other) (le_bytes 4 (m.cfg.boot_epoch % 2 ^ 32))

-- The bits of `a` that are not bits of `b`, in 32 bits.
abbrev pub any_beyond : ℕ → ℕ → Bool
any_beyond a b = any_bit a (bit_xor b (2 ^ 32 - 1))

-- The seqid of a stateid against the one of the state, where 0 means the current one.
unfoldable pub check_seqid : ℕ → ℕ → Status
check_seqid seqid current =
    if not (seqid == 0) && ltb seqid current
    then Status.old_stateid
    else if not (seqid == 0) && ltb current seqid
    then Status.bad_stateid
    else Status.ok

abbrev pub is_ok : Status → Bool
is_ok s = elim s [ Status.ok ↦ true | _ ↦ false ]

abbrev pub is_lock_state : StateType → Bool
is_lock_state open_state = false
is_lock_state lock_state = true
is_lock_state deleg_state = false

abbrev pub is_deleg_state : StateType → Bool
is_deleg_state open_state = false
is_deleg_state lock_state = false
is_deleg_state deleg_state = true

-- `rec` and `bopen` are of the state that is found.
pub record IoCheck : Type 0 where
  pub status : Status
  pub special : Bool
  pub rec : Option ℕ
  pub bopen : Option ℕ

abbrev pub io_answer : Status → IoCheck
io_answer s = record { status = s; special = false; rec = none; bopen = none }

abbrev pub special_answer : Status → IoCheck
special_answer s = record { status = s; special = true; rec = none; bopen = none }

unfoldable pub any_denies : StateMgr → ℕ → List ℕ → Bool
unfolding is_dead
any_denies m need [] = false
any_denies m need (o ∷ os) =
    let rest = any_denies m need os in
    (not (is_dead m o) && any_bit (m.opens.recs o).deny need) || rest

-- The anonymous stateids: IO without an open, which respects the opens of others.
unfoldable pub check_special : StateMgr → Stateid → FileKey → ℕ → ℕ → ℕ → IoCheck × StateMgr
unfolding is_all_one in_grace find any_denies live_delegs start_recall
check_special m sid key need now clock =
    let (graced, g) = in_grace clock key.fsid m.grace in
    let m' = if need == 2 then record m { grace = g } else m in
    let f = file_or_new (find key m.opens.files) in
    let recalls = if need == 2 then live_delegs m' f.delegs else [] in
    if need == 2 && graced
    then (special_answer Status.grace, m')
    else if is_all_one sid
    then (special_answer Status.ok, m')
    else if any_denies m need f.opens
    then (special_answer Status.locked, m')
    else if is_nil recalls
    then (special_answer Status.ok, m')
    else (special_answer Status.delay, each (start_recall now) m' recalls)

-- The open whose access counts: of a lock, the one that it derives from.
abbrev pub parent_or : ℕ → Option ℕ → ℕ
parent_or r none = r
parent_or r (some p) = p

unfoldable pub open_of : StateMgr → ℕ → ℕ
open_of m r =
    let rec = m.opens.recs r in if is_lock_state rec.type then parent_or r rec.parent_open else r

unfoldable pub io_status : StateMgr → ℕ → Stateid → ℕ → FileKey → ℕ → Status
unfolding check_seqid open_of
io_status m r sid clientid key need =
    let rec = m.opens.recs r in
    let c = m.clients rec.client in
    let seq = check_seqid sid.seqid rec.seqid in
    if c.expired
    then Status.expired
    else if not (c.clientid == clientid) || not (key_eq (file_key rec) key)
    then Status.bad_stateid
    else if not (is_ok seq)
    then seq
    else if not (any_bit (m.opens.recs (open_of m r)).access need)
    then Status.openmode
    else Status.ok

unfoldable pub check_found : StateMgr → Option ℕ → Stateid → ℕ → FileKey → ℕ → IoCheck
unfolding io_status
check_found m none sid clientid key need = io_answer Status.bad_stateid
check_found m (some r) sid clientid key need =
    let rec = m.opens.recs r in
    let s = io_status m r sid clientid key need in
    record {
      status = s;
      special = false;
      rec = some r;
      bopen =
          if is_lock_state rec.type && is_ok s
          then (m.opens.recs (open_of m r)).bopen
          else rec.bopen;
    }

unfoldable pub check_io : StateMgr → Stateid → ℕ → FileKey → ℕ → ℕ → ℕ → IoCheck × StateMgr
unfolding is_special check_special is_current check_found find
check_io m sid clientid key need now clock =
    if is_special sid
    then check_special m sid key need now clock
    else if not (is_current m sid)
    then (io_answer Status.stale_stateid, m)
    else (check_found m (find sid.other m.opens.table) sid clientid key need, m)

pub record OpenRec : Type 0 where
  pub clientid : ℕ
  pub fsid : ℕ
  pub oid : ObjId
  pub seqid : ℕ
  pub access : ℕ
  pub deny : ℕ

pub record StateLookup : Type 0 where
  pub status : Status
  pub special : Bool
  pub rec : Option OpenRec

abbrev pub looked_up : StateMgr → Option ℕ → StateLookup
looked_up m none = record { status = Status.bad_stateid; special = false; rec = none }
looked_up m (some r) =
    let rec = m.opens.recs r in
    record {
      status = Status.ok;
      special = false;
      rec = some (record {
        clientid = (m.clients rec.client).clientid;
        fsid = rec.fsid;
        oid = rec.oid;
        seqid = rec.seqid;
        access = rec.access;
        deny = rec.deny;
      });
    }

unfoldable pub lookup_stateid : StateMgr → Stateid → StateLookup
unfolding is_special is_current find
lookup_stateid m sid =
    if is_special sid
    then record { status = Status.ok; special = true; rec = none }
    else if not (is_current m sid)
    then record { status = Status.stale_stateid; special = false; rec = none }
    else looked_up m (find sid.other m.opens.table)
