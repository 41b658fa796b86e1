-- ===== src/Opens/Stateids.antt =====
-- The operations of src/state/state_mgr.cpp that take a stateid: Check holds `check_io` and
-- `lookup_stateid`, and here are `close_state`, `open_downgrade`, `free_stateid`, `delegreturn`,
-- `check_deleg_claim`, and `deleg_conflict`.
mod Check
unfoldable pub use Check.*
use lightnfs.Prelude.{
  ℕ, ◌-◌, ◌%◌, ◌^◌, bit_xor, Bool, true, false, ◌&&◌, ◌||◌, not, Option, none, some, List, [], ◌∷◌,
  ltb, ◌==◌, if◌then◌else◌, bytes_eq, any_bit, take, replicate,
}
use lightnfs.Maps.{bytes, number, find}
use lightnfs.Nfs4.Status.{Status}
use lightnfs.Locks.Types.{ObjId, FileKey, key_eq}
use lightnfs.Locks.Table.{count_owner}
use lightnfs.Grace.Windows.{is_nil, in_grace}
use lightnfs.Sessions.Types.{StateMgr, incr64, next32}
use lightnfs.Opens.Types.{StateType, StateRec, file, open_state, lock_state, deleg_state}
use lightnfs.Opens.Unlink.{write_rec, each, file_key, is_open_state, unlink_state}
use lightnfs.Opens.Open.{Stateid, file_or_new, is_dead, live_delegs, start_recall}
use lightnfs.Clients.Session.{le_bytes}

-- What an operation of a stateid finds first.
pub data Found : Type 0 where
  refused : Status → Found
  state : ℕ → Found

abbrev pub found_in : Option ℕ → Found
found_in none = refused Status.bad_stateid
found_in (some r) = state r

unfoldable pub find_state : StateMgr → Stateid → Found
unfolding is_special is_current find
find_state m sid =
    if is_special sid
    then refused Status.bad_stateid
    else if not (is_current m sid)
    then refused Status.stale_stateid
    else found_in (find sid.other m.opens.table)

-- If the operation names the file of a filehandle, the state is of that file.
abbrev pub is_elsewhere : Option FileKey → StateRec → Bool
is_elsewhere none rec = false
is_elsewhere (some key) rec = not (key_eq (file_key rec) key)

abbrev pub no_stateid : Stateid
no_stateid = record { seqid = 0; other = replicate 12 0 }

-- `clientid` 0 stands for any client.
unfoldable pub close_found :
    StateMgr → Stateid → ℕ → Option FileKey → Found → Status × Stateid × StateMgr
unfolding check_seqid
close_found m sid clientid expect (refused s) = (s, no_stateid, m)
close_found m sid clientid expect (state r) =
    let rec = m.opens.recs r in
    let c = m.clients rec.client in
    let seq = check_seqid sid.seqid rec.seqid in
    if not (clientid == 0) && not (c.clientid == clientid)
    then (Status.bad_stateid, no_stateid, m)
    else if is_elsewhere expect rec
    then (Status.bad_stateid, no_stateid, m)
    else if not (clientid == 0) && not (is_ok seq)
    then (seq, no_stateid, m)
    else (
      Status.ok,
      record { seqid = next32 rec.seqid; other = sid.other },
      unlink_state m r true false,
    )

unfoldable pub close_state : StateMgr → Stateid → ℕ → Option FileKey → Status × Stateid × StateMgr
unfolding find_state close_found
close_state m sid clientid expect = close_found m sid clientid expect (find_state m sid)

abbrev pub downgraded : StateMgr → ℕ → ℕ → ℕ → StateMgr
downgraded m r access deny =
    let rec = m.opens.recs r in
    write_rec m r (record rec { access = access; deny = deny; seqid = next32 rec.seqid })

unfoldable pub downgrade_found :
    StateMgr → Stateid → ℕ → ℕ → ℕ → Option FileKey → Found → Status × Stateid × StateMgr
unfolding check_seqid
downgrade_found m sid clientid access deny expect (refused s) = (s, no_stateid, m)
downgrade_found m sid clientid access deny expect (state r) =
    let rec = m.opens.recs r in
    let c = m.clients rec.client in
    let seq = check_seqid sid.seqid rec.seqid in
    if not (c.clientid == clientid) || not (is_open_state rec.type)
    then (Status.bad_stateid, no_stateid, m)
    else if is_elsewhere expect rec
    then (Status.bad_stateid, no_stateid, m)
    else if not (is_ok seq)
    then (seq, no_stateid, m)
    else if access == 0 || any_beyond access rec.access || any_beyond deny rec.deny
    then (Status.inval, no_stateid, m)
    else (
      Status.ok,
      record { seqid = next32 rec.seqid; other = sid.other },
      downgraded m r access deny,
    )

unfoldable pub open_downgrade :
    StateMgr → Stateid → ℕ → ℕ → ℕ → Option FileKey → Status × Stateid × StateMgr
unfolding find_state downgrade_found
open_downgrade m sid clientid access deny expect =
    downgrade_found m sid clientid access deny expect (find_state m sid)

-- Only a lock without ranges is freed.
unfoldable pub free_found : StateMgr → ℕ → Found → Status × StateMgr
unfolding count_owner
free_found m clientid (refused s) = (s, m)
free_found m clientid (state r) =
    let rec = m.opens.recs r in
    if not ((m.clients rec.client).clientid == clientid)
    then (Status.bad_stateid, m)
    else if not (is_lock_state rec.type)
    then (Status.locks_held, m)
    else if ltb 0 (count_owner m.opens.locks (file_key rec) rec.lowner)
    then (Status.locks_held, m)
    else (Status.ok, unlink_state m r true false)

unfoldable pub free_stateid : StateMgr → Stateid → ℕ → Status × StateMgr
unfolding find_state free_found
free_stateid m sid clientid = free_found m clientid (find_state m sid)

-- The delegation that the stateid names, if it is this client's on this file.
abbrev pub deleg_in : StateMgr → ℕ → FileKey → Option ℕ → Found
deleg_in m clientid key none = refused Status.bad_stateid
deleg_in m clientid key (some r) =
    let rec = m.opens.recs r in
    if not (is_deleg_state rec.type)
      || not ((m.clients rec.client).clientid == clientid)
      || not (key_eq (file_key rec) key)
    then refused Status.bad_stateid
    else state r

unfoldable pub find_deleg : StateMgr → Stateid → ℕ → FileKey → Found
unfolding is_current find
find_deleg m sid clientid key =
    if not (is_current m sid)
    then refused Status.stale_stateid
    else deleg_in m clientid key (find sid.other m.opens.table)

abbrev pub return_found : StateMgr → Found → Status × StateMgr
return_found m (refused s) = (s, m)
return_found m (state r) =
    let m' = unlink_state m r true false in
    (
      Status.ok,
      record m' { opens = record m'.opens { deleg_returns = incr64 m'.opens.deleg_returns } },
    )

unfoldable pub delegreturn : StateMgr → Stateid → ℕ → FileKey → Status × StateMgr
unfolding find_deleg
delegreturn m sid clientid key = return_found m (find_deleg m sid clientid key)

abbrev pub claim_status : Found → Status
claim_status (refused s) = s
claim_status (state r) = Status.ok

unfoldable pub check_deleg_claim : StateMgr → Stateid → ℕ → FileKey → Status
unfolding find_deleg
check_deleg_claim m sid clientid key = claim_status (find_deleg m sid clientid key)

-- Before a mutation of the file.
unfoldable pub deleg_conflict : StateMgr → FileKey → ℕ → Status × StateMgr
unfolding find live_delegs start_recall
deleg_conflict m key now =
    let recalls = live_delegs m (file_or_new (find key m.opens.files)).delegs in
    if m.opens.deleg_count == 0
    then (Status.ok, m)
    else if is_nil recalls
    then (Status.ok, m)
    else (Status.delay, each (start_recall now) m recalls)
