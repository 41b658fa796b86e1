-- ===== src/Opens/Open/Shares.antt =====
-- Share reservations and the gates of OPEN in src/state/state_mgr.cpp: its arguments, what it tests
-- before arbitration, and the scan of the opens of a file.
use lightnfs.Prelude.{
  ℕ, ◌+◌, ◌%◌, ◌^◌, Bool, true, false, ◌&&◌, ◌||◌, not, Option, some, List, [], ◌∷◌, ◌++◌, leb,
  ◌==◌, if◌then◌else◌, bytes_eq, length, replicate, any_bit,
}
use lightnfs.Maps.{bytes, number}
use lightnfs.Nfs4.Status.{Status}
use lightnfs.Locks.Types.{ObjId}
use lightnfs.Grace.Windows.{in_grace, in_stable_list}
use lightnfs.Sessions.Types.{StateMgr, incr64}
use lightnfs.Opens.Types.{StateType, StateRec, file, open_state, lock_state, deleg_state}
use lightnfs.Opens.Unlink.{write_rec}
use lightnfs.Clients.Session.{le_bytes}

pub record OpenArgs : Type 0 where
  pub clientid : ℕ
  pub fsid : ℕ
  pub oid : ObjId
  pub owner : List ℕ
  pub access : ℕ
  pub deny : ℕ
  pub reclaim : Bool
  pub deleg_claim : Bool

pub record Stateid : Type 0 where
  pub seqid : ℕ
  pub other : List ℕ

pub record OpenResult : Type 0 where
  pub status : Status
  pub stateid : Stateid
  pub merged : Bool

abbrev pub open_refused : Status → OpenResult
open_refused s = record {
  status = s;
  stateid = record { seqid = 0; other = replicate 12 0 };
  merged = false;
}

unfoldable pub share_conflict : ℕ → ℕ → StateRec → Bool
share_conflict access deny other = any_bit access other.deny || any_bit deny other.access

abbrev pub type_code : StateType → ℕ
type_code open_state = 1
type_code lock_state = 2
type_code deleg_state = 3

-- The epoch, the type and a counter.
unfoldable pub new_other : StateMgr → StateType → List ℕ
unfolding le_bytes
new_other m t =
    le_bytes 4 (m.cfg.boot_epoch % 2 ^ 32) ++ (type_code t ∷ []) ++ le_bytes 7 m.opens.next_state

-- The gates before arbitration: grace, and the cap on states.
unfoldable pub gate : StateMgr → ℕ → OpenArgs → ℕ → Status × StateMgr
unfolding in_grace in_stable_list
gate m a args clock =
    let c = m.clients a in
    let (graced, g) = in_grace clock args.fsid m.grace in
    let m' = record m { grace = g } in
    let full =
      not (m.cfg.max_states_per_client == 0) && leb m.cfg.max_states_per_client (length c.states) in
    let capped : Status = if full then Status.resource else Status.ok in
    if args.reclaim
    then (if not graced
        then (Status.no_grace, m')
        else if not (in_stable_list args.fsid c.owner_id g)
        then (Status.reclaim_bad, m')
        else if c.reclaim_complete
        then (Status.no_grace, m')
        else (capped, m'))
    else if graced || not c.reclaim_complete
    then (Status.grace, m')
    else (capped, m')

-- What the scan of the opens of a file finds: the open of the same owner, or a conflict, with a client
-- in courtesy by its id.
pub record Arbitration : Type 0 where
  pub mine : Option ℕ
  pub denied : Bool
  pub courtesy : ℕ

-- An open that waits to be unlinked.
unfoldable pub is_dead : StateMgr → ℕ → Bool
is_dead m o = (m.opens.recs o).closed || (m.clients (m.opens.recs o).client).expired

unfoldable pub is_same : StateMgr → ℕ → List ℕ → ℕ → Bool
is_same m a owner o = (m.opens.recs o).client == a && bytes_eq (m.opens.recs o).owner owner

unfoldable pub arbitrate : StateMgr → ℕ → OpenArgs → List ℕ → Option ℕ → Arbitration
unfolding share_conflict is_dead is_same
arbitrate m a args [] mine = record { mine = mine; denied = false; courtesy = 0 }
arbitrate m a args (o ∷ os) mine =
    let rec = m.opens.recs o in
    let c = m.clients rec.client in
    let same = is_same m a args.owner o in
    let rest = arbitrate m a args os (if not (is_dead m o) && same then some o else mine) in
    if is_dead m o || same || not (share_conflict args.access args.deny rec)
    then rest
    else if c.courtesy
    then record { mine = mine; denied = false; courtesy = c.clientid }
    else record { mine = mine; denied = true; courtesy = 0 }

unfoldable pub live_delegs : StateMgr → List ℕ → List ℕ
unfolding is_dead
live_delegs m [] = []
live_delegs m (d ∷ ds) = let rest = live_delegs m ds in if is_dead m d then rest else d ∷ rest

unfoldable pub start_recall : ℕ → StateMgr → ℕ → StateMgr
start_recall now m d =
    let rec = m.opens.recs d in
    let m' =
      write_rec m d (record rec { recalled = true; recall_deadline = now + m.cfg.lease_seconds }) in
    if rec.recalled then m else record m' {
      opens = record m'.opens {
        recall_watch = m'.opens.recall_watch ++ d ∷ [];
        deleg_recalls = incr64 m'.opens.deleg_recalls;
      };
    }
