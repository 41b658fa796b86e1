-- ===== src/Clients/Run.antt =====
-- Any requests and scans on the clients and sessions of src/state/state_mgr.cpp.
use lightnfs.Prelude.{ℕ, ◌≡◌, refl, sym, ap, ◌∙◌, Bool, some, List, [], ◌∷◌, arith}
use lightnfs.Maps.{number, find}
use lightnfs.Sessions.Types.{StateMgr}
use lightnfs.Sessions.Sequence.{sequence_begin, sequence_complete, sequence_abort}
use lightnfs.Sessions.Bind.{bind_conn, destroy_session}
use lightnfs.Clients.Start.{no_clients}
use lightnfs.Clients.Exchange.{exchange_id, find_client}
use lightnfs.Clients.Session.{CreateArgs, create_session, confirm_create_session}
use lightnfs.Clients.Leave.{Reason, destroy_clientid, reclaim_complete, expire_client}
use lightnfs.Clients.Scan.{scan_leases}
use lightnfs.Clients.View.{see, view, IsIn, IsConsistent, Moves, Moves-IsConsistent}
use lightnfs.Clients.Moves.{stay}
use lightnfs.Clients.Registers.{HasRoom, exchange_id-Moves}
use lightnfs.Clients.Confirms.{create_session-Moves, confirm_create_session-view, find_client-IsIn}
use lightnfs.Clients.Leaves.{
  destroy_clientid-Moves, reclaim_complete-view, expire_client-Moves, scan_leases-Moves,
}
use lightnfs.Clients.Requests.{
  sequence_begin-view, sequence_complete-view, sequence_abort-view, bind_conn-view,
  destroy_session-view,
}

pub data Event : Type 0 where
  exchange : List ℕ → List ℕ → List ℕ → Bool → ℕ → Event
  create : CreateArgs → ℕ → ℕ → Event
  created : ℕ → List ℕ → Event
  request : List ℕ → ℕ → ℕ → ℕ → ℕ → Bool → ℕ → Event
  finish : List ℕ → ℕ → ℕ → Bool → List ℕ → Event
  abort : List ℕ → ℕ → Event
  bind : List ℕ → ℕ → Event
  leave_session : List ℕ → ℕ → Event
  leave : ℕ → Event
  reclaimed : ℕ → Event
  reclaim : ℕ → Reason → Event
  scan : ℕ → Event

unfoldable pub apply : StateMgr → Event → StateMgr
unfolding exchange_id create_session confirm_create_session sequence_begin sequence_complete
    sequence_abort bind_conn destroy_session destroy_clientid reclaim_complete expire_client
    scan_leases
apply m (exchange owner verifier principal update now) =
    (exchange_id m owner verifier principal update now).1
apply m (create args nonce now) = (create_session m args nonce now).1
apply m (created id reply) = confirm_create_session m id reply
apply m (request id slotid seqid highest conn alive now) =
    (sequence_begin m id slotid seqid highest conn alive now).1
apply m (finish id slotid seqid cache reply) = sequence_complete m id slotid seqid cache reply
apply m (abort id slotid) = sequence_abort m id slotid
apply m (bind id conn) = (bind_conn m id conn).1
apply m (leave_session id conn) = (destroy_session m id conn).1
apply m (leave id) = (destroy_clientid m id).1
apply m (reclaimed id) = (reclaim_complete m id).1
apply m (reclaim id reason) = (expire_client m id reason).1
apply m (scan now) = scan_leases m now

unfoldable pub run : StateMgr → List Event → StateMgr
unfolding apply
run m [] = m
run m (e ∷ es) = run (apply m e) es

-- The counter of client ids does not come to its end.
abbrev pub IsRoomy : StateMgr → List Event → Type 0
IsRoomy m [] = Unit
IsRoomy m (e ∷ es) = HasRoom m × IsRoomy (apply m e) es

apply-Moves :
    (m : StateMgr) (e : Event)
    → HasRoom m
    → IsConsistent (view m)
    → Moves (view m) (view (apply m e))
unfolding apply
apply-Moves m (exchange owner verifier principal update now) k c =
    exchange_id-Moves m owner verifier principal update now k c
apply-Moves m (create args nonce now) k c = create_session-Moves m args nonce now c
apply-Moves m (created id reply) k c = stay (confirm_create_session-view m id reply)
apply-Moves m (request id slotid seqid highest conn alive now) k c =
    stay (sequence_begin-view m id slotid seqid highest conn alive now)
apply-Moves m (finish id slotid seqid cache reply) k c =
    stay (sequence_complete-view m id slotid seqid cache reply)
apply-Moves m (abort id slotid) k c = stay (sequence_abort-view m id slotid)
apply-Moves m (bind id conn) k c = stay (bind_conn-view m id conn)
apply-Moves m (leave_session id conn) k c = stay (destroy_session-view m id conn)
apply-Moves m (leave id) k c = destroy_clientid-Moves m id c
apply-Moves m (reclaimed id) k c = stay (reclaim_complete-view m id)
apply-Moves m (reclaim id reason) k c = expire_client-Moves m id reason c
apply-Moves m (scan now) k c = scan_leases-Moves m now c

-- The tables of a new manager are consistent.
new-IsConsistent : (m : StateMgr) → m.registry ≡ no_clients → IsConsistent (view m)
unfolding view see find
new-IsConsistent m e = rw e (record {
  by_id = λ id. refl;
  named = λ id a h. cc;
  below = λ id a h. cc;
  in_confirmed = λ a h q. cc;
  in_unconfirmed = λ a h q. cc;
  of_confirmed = λ o a h. cc;
  of_unconfirmed = λ o a h. cc;
})

run_from-IsConsistent :
    (es : List Event) (m : StateMgr)
    → IsRoomy m es
    → IsConsistent (view m)
    → IsConsistent (view (run m es))
unfolding run
run_from-IsConsistent [] m k c = c
run_from-IsConsistent (e ∷ es) m k c =
    run_from-IsConsistent es (apply m e) k.1 (Moves-IsConsistent c (apply-Moves m e k.0 c))

-- After any events of a manager that starts without clients, while the counter of client ids has not
-- come to its end, the tables of clients agree: by_id and the index find the same records, each under
-- its own id and below the next id; and a record is registered exactly if it stands in its owner's
-- slot, in the confirmed place if it is confirmed and in the unconfirmed place if not.
pub run-IsConsistent :
    (m : StateMgr) (es : List Event)
    → m.registry ≡ no_clients
    → IsRoomy m es
    → IsConsistent (view (run m es))
run-IsConsistent m es e k = run_from-IsConsistent es m k (new-IsConsistent m e)

one_place :
    (n : StateMgr) (a b : ℕ)
    → IsConsistent (view n)
    → IsIn (view n) a
    → IsIn (view n) b
    → (n.clients a).owner_id ≡ (n.clients b).owner_id
    → (n.clients a).confirmed ≡ (n.clients b).confirmed
    → a ≡ b
unfolding view see
one_place n a b c p q o f =
    ground
      (arith, c.in_confirmed a p, c.in_confirmed b q, c.in_unconfirmed a p, c.in_unconfirmed b q)

-- After such events two client ids that are found, of one owner and both confirmed or both not, are one
-- id and one record: an owner has one confirmed client at most, and one unconfirmed.
pub run-one_confirmed :
    (m : StateMgr) (es : List Event) (id id' a b : ℕ)
    → m.registry ≡ no_clients
    → IsRoomy m es
    → find_client (run m es) id ≡ some a
    → find_client (run m es) id' ≡ some b
    → ((run m es).clients a).owner_id ≡ ((run m es).clients b).owner_id
    → ((run m es).clients a).confirmed ≡ ((run m es).clients b).confirmed
    → (id ≡ id') × (a ≡ b)
run-one_confirmed m es id id' a b e k p q o f =
    let n = run m es in
    let c = run-IsConsistent m es e k in
    let (in_a, named_a) = find_client-IsIn n id a c p in
    let (in_b, named_b) = find_client-IsIn n id' b c q in
    let same : a ≡ b = one_place n a b c in_a in_b o f in
    (sym named_a ∙ (ap (λ (i : ℕ). (n.clients i).clientid) same ∙ named_b), same)
