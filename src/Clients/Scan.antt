-- ===== src/Clients/Scan.antt =====
-- `scan_leases` of src/state/state_mgr.cpp, without its sweep of recalled delegations. Each client that
-- is due is handled in one step, so what the code tests again under the mutex is tested once.
use lightnfs.Prelude.{
  ℕ, ◌+◌, ◌-◌, ◌*◌, max, Bool, true, false, ◌&&◌, ◌||◌, not, Option, none, some, List, [], ◌∷◌,
  ◌++◌, leb, ltb, ◌==◌, if◌then◌else◌,
}
use lightnfs.Maps.{number, find}
use lightnfs.Clients.Types.{points}
use lightnfs.Sessions.Types.{StateMgr, incr64}
use lightnfs.Sessions.Sequence.{write_client, arm_lease_check}
use lightnfs.Clients.Exchange.{write_registry, unregister, unpersist_client, has_state}
use lightnfs.Clients.Leave.{leave_owner, expire_client, timeout}

abbrev pub earlier : ℕ × ℕ → ℕ × ℕ → Bool
earlier a b = ltb a.0 b.0 || (a.0 == b.0 && ltb a.1 b.1)

-- The heap pops its least entry first.
unfoldable pub into_order : ℕ × ℕ → List (ℕ × ℕ) → List (ℕ × ℕ)
into_order e [] = e ∷ []
into_order e (d ∷ ds) = let rest = into_order e ds in if earlier d e then d ∷ rest else e ∷ d ∷ ds

-- The entries that are due, in order, and those that stay.
unfoldable pub pop_due : ℕ → List (ℕ × ℕ) → List (ℕ × ℕ) × List (ℕ × ℕ)
unfolding into_order
pop_due now [] = ([], [])
pop_due now (e ∷ heap) =
    let (due, rest) = pop_due now heap in
    if leb e.0 now then (into_order e due, rest) else (due, e ∷ rest)

abbrev pub deadline_is : Option ℕ → ℕ → Bool
deadline_is none d = false
deadline_is (some e) d = e == d

-- A popped entry counts if it is its client's live one.
unfoldable pub due_client : StateMgr → ℕ → Option ℕ → List ℕ × StateMgr
due_client m when none = ([], m)
due_client m when (some a) =
    let c = m.clients a in
    if deadline_is c.lease_heap_deadline when
    then (a ∷ [], write_client m a (record c { lease_heap_deadline = none }))
    else ([], m)

unfoldable pub due_clients : StateMgr → List (ℕ × ℕ) → List ℕ × StateMgr
unfolding find due_client
due_clients m [] = ([], m)
due_clients m ((when, clientid) ∷ es) =
    let (first, m1) = due_client m when (find clientid m.registry.client_idx) in
    let (rest, m2) = due_clients m1 es in (first ++ rest, m2)

unfoldable pub courtesy_window : StateMgr → ℕ
courtesy_window m = m.cfg.lease_seconds * max 1 m.cfg.courtesy_multiplier

abbrev pub count_expiration : StateMgr → StateMgr
count_expiration m =
    write_registry m (record m.registry { lease_expirations = incr64 m.registry.lease_expirations })

-- An unconfirmed or idle record lapses.
unfoldable pub lapse : StateMgr → ℕ → StateMgr
unfolding unpersist_client leave_owner unregister
lapse m a =
    count_expiration (unregister (leave_owner (unpersist_client m a) a) (m.clients a).clientid)

unfoldable pub enter_courtesy : StateMgr → ℕ → ℕ → StateMgr
unfolding arm_lease_check courtesy_window
enter_courtesy m a now =
    let c = m.clients a in
    let m' = write_client m a (record c { courtesy = true; courtesy_since = now }) in
    arm_lease_check (count_expiration (record m' { courtesy_count = incr64 m'.courtesy_count })) a
      (now + courtesy_window m)

-- A lease that has run out.
unfoldable pub end_lease : StateMgr → ℕ → ℕ → StateMgr
unfolding find lapse enter_courtesy
end_lease m a now =
    let c = m.clients a in
    if not (points (find c.clientid m.registry.by_id) a)
    then m
    else if not c.confirmed || not (has_state c)
    then lapse m a
    else enter_courtesy m a now

-- The client ids to reclaim, and the manager.
unfoldable pub visit : StateMgr → ℕ → ℕ → List ℕ × StateMgr
unfolding courtesy_window arm_lease_check end_lease
visit m a now =
    let c = m.clients a in
    if c.expired
    then ([], m)
    else if c.courtesy
    then (if leb (courtesy_window m) (now - c.courtesy_since)
        then (c.clientid ∷ [], m)
        else ([], arm_lease_check m a (c.courtesy_since + courtesy_window m)))
    else if ltb now c.lease_expiry
    then ([], arm_lease_check m a c.lease_expiry)
    else ([], end_lease m a now)

unfoldable pub visit_all : StateMgr → List ℕ → ℕ → List ℕ × StateMgr
unfolding visit
visit_all m [] now = ([], m)
visit_all m (a ∷ as') now =
    let (first, m1) = visit m a now in let (rest, m2) = visit_all m1 as' now in (first ++ rest, m2)

unfoldable pub expire_all : StateMgr → List ℕ → StateMgr
unfolding expire_client
expire_all m [] = m
expire_all m (id ∷ ids) = expire_all (expire_client m id timeout).1 ids

unfoldable pub scan_leases : StateMgr → ℕ → StateMgr
unfolding pop_due due_clients visit_all expire_all
scan_leases m now =
    let (popped, heap) = pop_due now m.lease_heap in
    let (due, m1) = due_clients (record m { lease_heap = heap }) popped in
    let (timed_out, m2) = visit_all m1 due now in expire_all m2 timed_out
