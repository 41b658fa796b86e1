-- ===== src/Opens/Unlink.antt =====
-- `unlink_state` of src/state/state_mgr.cpp, which drops a state from the tables. No native lock
-- manager is configured, and the notices to lock waiters and the handle of the backend that the caller
-- drops are left out.
use lightnfs.Prelude.{
  ℕ, zero, suc, Bool, true, false, ◌&&◌, not, Option, none, some, List, [], ◌∷◌, ◌==◌, ltb,
  if◌then◌else◌,
}
use lightnfs.Maps.{bytes, number, find, put, erase, without}
use lightnfs.Locks.Types.{FileKey}
use lightnfs.Locks.Table.{release_owner}
use lightnfs.Grace.Windows.{is_nil}
use lightnfs.Clients.Types.{Stable, points}
use lightnfs.Opens.Types.{
  StateType, StateRec, FileStateRec, file, open_state, lock_state, deleg_state,
}
use lightnfs.Sessions.Types.{Client, StateMgr, decr64, prev32}
use lightnfs.Sessions.Sequence.{write_client}

abbrev pub write_rec : StateMgr → ℕ → StateRec → StateMgr
write_rec m r rec = record m {
  opens = record m.opens { recs = λ i. if i == r then rec else m.opens.recs i };
}

abbrev pub file_key : StateRec → FileKey
file_key rec = record { fsid = rec.fsid; oid = rec.oid }

-- A call of the stable store.
abbrev pub store : StateMgr → Stable → StateMgr
store m s = record m { registry = record m.registry { stable = s ∷ m.registry.stable } }

abbrev pub is_open_state : StateType → Bool
is_open_state open_state = true
is_open_state lock_state = false
is_open_state deleg_state = false

-- Under the mutex of the state's shard.
unfoldable pub close_rec : StateMgr → ℕ → StateMgr
unfolding erase
close_rec m r =
    let rec = m.opens.recs r in
    let m' = write_rec m r (record rec { closed = true; bopen = none }) in
    record m' {
      opens = record m'.opens {
        table = erase rec.other m'.opens.table;
        open_count =
            if is_open_state rec.type then decr64 m'.opens.open_count else m'.opens.open_count;
      };
    }

-- The locks that derive from the open.
unfoldable pub derived : StateMgr → ℕ → List ℕ → List ℕ
derived m r [] = []
derived m r (l ∷ ls) =
    let rest = derived m r ls in if points (m.opens.recs l).parent_open r then l ∷ rest else rest

unfoldable pub unlist : StateType → ℕ → FileStateRec → FileStateRec
unfolding without
unlist open_state r f = record f { opens = without r f.opens }
unlist lock_state r f = record f { locks = without r f.locks }
unlist deleg_state r f = record f { delegs = without r f.delegs }

abbrev pub is_unused : FileStateRec → Bool
is_unused f = is_nil f.opens && is_nil f.locks && is_nil f.delegs

-- A file without states is dropped.
unfoldable pub store_file : StateMgr → FileKey → FileStateRec → StateMgr
unfolding put erase
store_file m key f = record m {
  opens =
      if is_unused f
      then record m.opens {
        files = erase key m.opens.files;
        file_count = decr64 m.opens.file_count;
      }
      else record m.opens { files = put key f m.opens.files };
}

-- Under the mutex of the file's shard: the locks that go with an open, and the manager.
unfoldable pub unlist_in : StateMgr → ℕ → StateRec → Option FileStateRec → List ℕ × StateMgr
unfolding derived unlist store_file
unlist_in m r rec none = ([], m)
unlist_in m r rec (some f) = (
  if is_open_state rec.type then derived m r f.locks else [],
  store_file m (file_key rec) (unlist rec.type r f),
)

unfoldable pub release_type : StateMgr → StateRec → StateType → StateMgr
unfolding release_owner
release_type m rec open_state = m
release_type m rec lock_state = record m {
  opens = record m.opens {
    locks = (release_owner m.opens.locks (file_key rec) rec.lowner).1;
    lock_count = decr64 m.opens.lock_count;
  };
}
release_type m rec deleg_state =
    let c = m.clients rec.client in
    write_client (record m { opens = record m.opens { deleg_count = decr64 m.opens.deleg_count } })
      rec.client (record c { delegs = prev32 c.delegs })

abbrev pub drop_count : ℕ → List (ℕ × ℕ) → Option ℕ → Bool × List (ℕ × ℕ)
drop_count fsid counts none = (false, counts)
drop_count fsid counts (some n) =
    if ltb 0 (prev32 n) then (false, put fsid (prev32 n) counts) else (true, erase fsid counts)

-- Whether it was the client's last state in its file system.
unfoldable pub untrack_state : Client → StateRec → Bool × Client
unfolding find without put erase
untrack_state c rec =
    let (last, counts) = drop_count rec.fsid c.fs_states (find rec.fsid c.fs_states) in
    (last, record c { states = without rec.other c.states; fs_states = counts })

-- Under the mutex of the client's shard, when a client drops its state.
unfoldable pub untrack : StateMgr → StateRec → Bool → StateMgr
unfolding untrack_state
untrack m rec handover =
    let (last, c) = untrack_state (m.clients rec.client) rec in
    let m' = write_client m rec.client c in
    if last && m'.cfg.per_fsid_reclaim && not handover
    then store m' (Stable.delist rec.fsid c.owner_id)
    else m'

abbrev pub each : (StateMgr → ℕ → StateMgr) → StateMgr → List ℕ → StateMgr
each f m [] = m
each f m (r ∷ rs) = each f (f m r) rs

-- An open takes its locks with it, and a lock takes nothing, so two levels are enough.
unfoldable pub unlink_level : ℕ → StateMgr → ℕ → Bool → Bool → StateMgr
unfolding close_rec find unlist_in release_type untrack
unlink_level zero m r from_client handover = m
unlink_level (suc n) m r from_client handover =
    let rec = m.opens.recs r in
    let m1 = close_rec m r in
    let (locks, m2) = unlist_in m1 r rec (find (file_key rec) m1.opens.files) in
    let m3 =
      each (λ m' l. unlink_level n m' l from_client handover) (release_type m2 rec rec.type)
        locks in
    let m4 = if from_client then untrack m3 rec handover else m3 in if rec.closed then m else m4

unfoldable pub unlink_state : StateMgr → ℕ → Bool → Bool → StateMgr
unfolding unlink_level
unlink_state m r from_client handover = unlink_level 2 m r from_client handover
