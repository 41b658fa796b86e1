-- ===== src/Clients/Leave.antt =====
-- DESTROY_CLIENTID, RECLAIM_COMPLETE and the reclaim of a client in src/state/state_mgr.cpp:
-- `destroy_clientid`, `reclaim_complete` and `expire_client_impl`. Each is one step here.
use lightnfs.Prelude.{
  ℕ, true, false, ◌&&◌, not, Option, none, some, List, [], ◌∷◌, ◌==◌, if◌then◌else◌,
}
use lightnfs.Maps.{bytes, number, find, put, erase}
use lightnfs.Nfs4.Status.{Status}
use lightnfs.Grace.Windows.{note_reclaimed}
use lightnfs.Clients.Types.{OwnerSlot, points}
use lightnfs.Sessions.Types.{StateMgr, incr64, decr64}
use lightnfs.Sessions.Sequence.{write_client}
use lightnfs.Clients.Exchange.{
  find_client, write_registry, set_slot, drop_slot, is_none, unregister, unpersist_client,
  has_state,
}
use lightnfs.Clients.Session.{kill_sessions, unlink_all}

-- The owner's slot lets go of the record, and goes if it is empty.
abbrev pub leave_slot : ℕ → OwnerSlot → OwnerSlot
leave_slot a slot = record {
  confirmed = if points slot.confirmed a then none else slot.confirmed;
  unconfirmed = if points slot.unconfirmed a then none else slot.unconfirmed;
}

unfoldable pub leave_in : StateMgr → List ℕ → ℕ → Option OwnerSlot → StateMgr
unfolding put erase
leave_in m owner a none = m
leave_in m owner a (some slot) =
    let slot' = leave_slot a slot in
    if is_none slot'.confirmed && is_none slot'.unconfirmed
    then drop_slot m owner
    else set_slot m owner slot'

unfoldable pub leave_owner : StateMgr → ℕ → StateMgr
unfolding find leave_in
leave_owner m a =
    let owner = (m.clients a).owner_id in leave_in m owner a (find owner m.registry.by_owner)

unfoldable pub end_courtesy : StateMgr → ℕ → StateMgr
end_courtesy m a =
    let c = m.clients a in
    let m' = write_client m a (record c { courtesy = false }) in
    if c.courtesy then record m' { courtesy_count = decr64 m'.courtesy_count } else m'

abbrev pub keep_owners : StateMgr → ℕ → List (List ℕ × ℕ × List ℕ) → List (List ℕ × ℕ × List ℕ)
keep_owners m clientid [] = []
keep_owners m clientid ((id, a, owner) ∷ owners) =
    let rest = keep_owners m clientid owners in
    if (m.clients a).clientid == clientid then rest else (id, a, owner) ∷ rest

unfoldable pub forget_lock_owners : StateMgr → ℕ → StateMgr
forget_lock_owners m clientid = record m {
  opens = record m.opens { lock_owners = keep_owners m clientid m.opens.lock_owners };
}

unfoldable pub destroy_found_client : StateMgr → ℕ → ℕ → Status × StateMgr
unfolding find unpersist_client leave_owner end_courtesy unregister forget_lock_owners
destroy_found_client m a clientid =
    if not (points (find clientid m.registry.by_id) a)
    then (Status.stale_clientid, m)
    else if has_state (m.clients a)
    then (Status.clientid_busy, m)
    else (
      Status.ok,
      forget_lock_owners
          (unregister (end_courtesy (leave_owner (unpersist_client m a) a) a) clientid) clientid,
    )

abbrev pub destroy_for : StateMgr → Option ℕ → ℕ → Status × StateMgr
destroy_for m none clientid = (Status.stale_clientid, m)
destroy_for m (some a) clientid = destroy_found_client m a clientid

unfoldable pub destroy_clientid : StateMgr → ℕ → Status × StateMgr
unfolding find_client destroy_found_client
destroy_clientid m clientid = destroy_for m (find_client m clientid) clientid

unfoldable pub reclaim_for : StateMgr → Option ℕ → ℕ → Status × StateMgr
unfolding find note_reclaimed
reclaim_for m none clientid = (Status.stale_clientid, m)
reclaim_for m (some a) clientid =
    let c = m.clients a in
    let m' = write_client m a (record c { reclaim_complete = true }) in
    if is_none (find clientid m.registry.by_id)
    then (Status.stale_clientid, m)
    else if c.reclaim_complete
    then (Status.complete_already, m)
    else (Status.ok, record m' { grace = note_reclaimed c.owner_id m'.grace })

unfoldable pub reclaim_complete : StateMgr → ℕ → Status × StateMgr
unfolding find_client reclaim_for
reclaim_complete m clientid = reclaim_for m (find_client m clientid) clientid

-- Why a client is reclaimed; the code has a fourth reason that nothing uses.
pub data Reason : Type 0 where
  forced conflict timeout : Reason

unfoldable pub count_reason : StateMgr → Reason → StateMgr
count_reason m forced =
    write_registry m (record m.registry { reclaim_forced = incr64 m.registry.reclaim_forced })
count_reason m conflict =
    write_registry m (record m.registry { reclaim_conflict = incr64 m.registry.reclaim_conflict })
count_reason m timeout =
    write_registry m (record m.registry { reclaim_timeout = incr64 m.registry.reclaim_timeout })

-- Under the mutex of the owner's shard.
unfoldable pub retire : StateMgr → ℕ → ℕ → StateMgr
unfolding end_courtesy leave_owner unregister
retire m a clientid =
    let m1 = end_courtesy m a in
    let c = m1.clients a in
    let m2 = write_client m1 a (record c { expired = true; states = []; sessions = [] }) in
    unregister (leave_owner m2 a) clientid

unfoldable pub expire_found : StateMgr → ℕ → ℕ → Reason → Status × StateMgr
unfolding find retire unlink_all kill_sessions unpersist_client forget_lock_owners count_reason
expire_found m a clientid reason =
    let c = m.clients a in
    let m1 = kill_sessions (unlink_all (retire m a clientid) c.states) c.sessions in
    if not (points (find clientid m.registry.by_id) a)
    then (Status.stale_clientid, m)
    else if c.expired
    then (Status.ok, m)
    else (Status.ok, count_reason (forget_lock_owners (unpersist_client m1 a) clientid) reason)

abbrev pub expire_for : StateMgr → Option ℕ → ℕ → Reason → Status × StateMgr
expire_for m none clientid reason = (Status.stale_clientid, m)
expire_for m (some a) clientid reason = expire_found m a clientid reason

unfoldable pub expire_client : StateMgr → ℕ → Reason → Status × StateMgr
unfolding find_client expire_found
expire_client m clientid reason = expire_for m (find_client m clientid) clientid reason
