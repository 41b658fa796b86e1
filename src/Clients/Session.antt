-- ===== src/Clients/Session.antt =====
-- CREATE_SESSION: `create_session` and `confirm_create_session` of src/state/state_mgr.cpp. The calls
-- hold the mutex of the owner's shard, and then those of the tables that they change, one by one; each
-- is one step here. The credential for callbacks is left out, and `nonce` is what getrandom gives.
use lightnfs.Prelude.{
  ℕ, zero, suc, ◌/◌, ◌%◌, min, Bool, true, false, ◌&&◌, not, Option, none, some, List, [], ◌∷◌,
  ◌++◌, ltb, ◌==◌, if◌then◌else◌, bytes_eq, replicate,
}
use lightnfs.Maps.{bytes, number, find, put, erase}
use lightnfs.Nfs4.Status.{Status}
use lightnfs.Clients.Types.{OwnerSlot, Stable, points}
use lightnfs.Sessions.Types.{ChannelAttrs, Slot, Client, Session, StateMgr, incr64, decr64, next32}
use lightnfs.Sessions.Sequence.{write_client, renew}
use lightnfs.Opens.Unlink.{store, unlink_state}
use lightnfs.Clients.Exchange.{find_client, set_slot, slot_or_new, unregister}

pub record CreateSessionResult : Type 0 where
  pub status : Status
  pub replay : Bool
  pub cached : List ℕ
  pub sessionid : List ℕ
  pub fore : ChannelAttrs
  pub back : ChannelAttrs
  pub sequence : ℕ

abbrev pub no_attrs : ChannelAttrs
no_attrs = record {
  headerpad = 0;
  max_request = 0;
  max_response = 0;
  max_response_cached = 0;
  max_ops = 0;
  max_requests = 0;
}

abbrev pub create_refused : Status → CreateSessionResult
create_refused s = record {
  status = s;
  replay = false;
  cached = [];
  sessionid = replicate 16 0;
  fore = no_attrs;
  back = no_attrs;
  sequence = 0;
}

-- The first `n` bytes of a number as it stands in memory.
unfoldable pub le_bytes : ℕ → ℕ → List ℕ
le_bytes zero v = []
le_bytes (suc n) v = v % 256 ∷ le_bytes n (v / 256)

unfoldable pub session_id : ℕ → ℕ → ℕ → List ℕ
unfolding le_bytes
session_id clientid counter nonce = le_bytes 8 clientid ++ (le_bytes 4 counter ++ le_bytes 4 nonce)

abbrev pub clamp : ℕ → ℕ → ℕ → ℕ
clamp v lo hi = if ltb v lo then lo else if ltb hi v then hi else v

abbrev pub empty_slot : Slot
empty_slot = record { seqid = 0; in_flight = false; cached = false; reply = [] }

-- What the client asks for, and its connection: `cb_attached` if it is to carry the backchannel.
pub record CreateArgs : Type 0 where
  pub clientid : ℕ
  pub sequence : ℕ
  pub principal : List ℕ
  pub fore_req : ChannelAttrs
  pub back_req : ChannelAttrs
  pub conn_id : ℕ
  pub cb_attached : Bool
  pub cb_program : ℕ

unfoldable pub new_session : StateMgr → ℕ → CreateArgs → Session
new_session m a args =
    let r = args.fore_req in
    let fore : ChannelAttrs = record {
      headerpad = 0;
      max_request = min r.max_request m.cfg.max_io;
      max_response = min r.max_response m.cfg.max_io;
      max_response_cached = min r.max_response_cached m.cfg.max_cached_reply;
      max_ops = min r.max_ops m.cfg.max_ops;
      max_requests = clamp r.max_requests 1 m.cfg.max_slots;
    } in
    record {
      client = a;
      fore = fore;
      back = record args.back_req { max_requests = 1; max_ops = 2 };
      slots = replicate fore.max_requests empty_slot;
      slot_count = fore.max_requests;
      bound_conns = args.conn_id ∷ [];
      cb_attached = args.cb_attached;
      cb_program = args.cb_program;
      cb_down = false;
    }

-- The old incarnation loses its sessions, its states and its place in the tables.
unfoldable pub bury : StateMgr → ℕ → StateMgr
unfolding unregister
bury m b =
    let c = m.clients b in
    let m1 =
      write_client m b
        (record c { expired = true; courtesy = false; sessions = []; states = [] }) in
    let m2 = if c.courtesy then record m1 { courtesy_count = decr64 m1.courtesy_count } else m1 in
    unregister m2 c.clientid

-- The confirmed record of the owner, if it is not this one.
abbrev pub other_than : ℕ → Option ℕ → Option ℕ
other_than a none = none
other_than a (some b) = if b == a then none else some b

abbrev pub bury_old : StateMgr → Option ℕ → StateMgr
bury_old m none = m
bury_old m (some b) = bury m b

unfoldable pub confirm_in : StateMgr → ℕ → OwnerSlot → StateMgr
unfolding bury put
confirm_in m a slot =
    let c = m.clients a in
    let m' = bury_old m (other_than a slot.confirmed) in
    let slot' : OwnerSlot = record {
      confirmed = some a;
      unconfirmed = if points slot.unconfirmed a then none else slot.unconfirmed;
    } in
    write_client (set_slot m' c.owner_id slot') a (record (m'.clients a) { confirmed = true })

unfoldable pub slot_of : StateMgr → ℕ → OwnerSlot
unfolding find
slot_of m a = slot_or_new (find (m.clients a).owner_id m.registry.by_owner)

-- The incarnation that this one replaces.
unfoldable pub old_incarnation : StateMgr → ℕ → Option ℕ
unfolding slot_of
old_incarnation m a = if (m.clients a).confirmed then none else other_than a (slot_of m a).confirmed

-- The client expects its next CREATE_SESSION, and has the session.
abbrev pub join_session : Client → ℕ → List ℕ → Client
join_session c sequence id = record c {
  cs_sequence = next32 sequence;
  sessions = c.sessions ++ id ∷ [];
}

-- The session joins its client, and the table.
unfoldable pub add_session : StateMgr → ℕ → CreateArgs → ℕ → ℕ → CreateSessionResult × StateMgr
unfolding session_id new_session renew put
add_session m a args nonce now =
    let c = m.clients a in
    let id = session_id c.clientid m.next_session nonce in
    let s = new_session m a args in
    let m1 = write_client m a (join_session c args.sequence id) in
    let m2 = renew m1 a now in
    (
      record {
        status = Status.ok;
        replay = false;
        cached = [];
        sessionid = id;
        fore = s.fore;
        back = s.back;
        sequence = args.sequence;
      },
      record m2 {
        next_session = next32 m2.next_session;
        sessions = put id s m2.sessions;
        session_count = incr64 m2.session_count;
      },
    )

abbrev pub is_some {ℓ} : {A : Type ℓ} → Option A → Bool
is_some none = false
is_some (some a) = true

-- The requests that wait on the slots of a dead session are woken, and find it gone.
unfoldable pub kill_session : StateMgr → List ℕ → StateMgr
unfolding find erase
kill_session m id =
    if is_some (find id m.sessions)
    then record m { sessions = erase id m.sessions; session_count = decr64 m.session_count }
    else m

unfoldable pub kill_sessions : StateMgr → List (List ℕ) → StateMgr
unfolding kill_session
kill_sessions m [] = m
kill_sessions m (id ∷ ids) = kill_sessions (kill_session m id) ids

abbrev pub unlink_found : StateMgr → Option ℕ → StateMgr
unlink_found m none = m
unlink_found m (some r) = unlink_state m r false false

unfoldable pub unlink_all : StateMgr → List (List ℕ) → StateMgr
unfolding find unlink_state
unlink_all m [] = m
unlink_all m (other ∷ others) = unlink_all (unlink_found m (find other m.opens.table)) others

-- What the old incarnation held is dropped after its sessions.
unfoldable pub drop_old : StateMgr → Client → StateMgr
unfolding kill_sessions unlink_all
drop_old m c = unlink_all (kill_sessions m c.sessions) c.states

unfoldable pub drop_incarnation : StateMgr → StateMgr → Option ℕ → StateMgr
unfolding drop_old
drop_incarnation m m' none = m'
drop_incarnation m m' (some b) = drop_old m' (m.clients b)

-- The first session of a client confirms it.
unfoldable pub confirm_client : StateMgr → ℕ → StateMgr
unfolding slot_of confirm_in
confirm_client m a = if (m.clients a).confirmed then m else confirm_in m a (slot_of m a)

-- The client is confirmed, with what that replaces, and gets a session.
unfoldable pub grant_session : StateMgr → ℕ → CreateArgs → ℕ → ℕ → CreateSessionResult × StateMgr
unfolding confirm_client old_incarnation add_session drop_incarnation
grant_session m a args nonce now =
    let (out, m2) = add_session (confirm_client m a) a args nonce now in
    (out, drop_incarnation m m2 (old_incarnation m a))

unfoldable pub create_found : StateMgr → ℕ → CreateArgs → ℕ → ℕ → CreateSessionResult × StateMgr
create_found m a args nonce now =
    let c = m.clients a in
    if not c.confirmed && not (bytes_eq c.principal args.principal)
    then (create_refused Status.clid_inuse, m)
    else if next32 args.sequence == c.cs_sequence && c.confirmed
    then (record (create_refused Status.ok) { replay = true; cached = c.cs_cached_reply }, m)
    else if not (args.sequence == c.cs_sequence)
    then (create_refused Status.seq_misordered, m)
    else grant_session m a args nonce now

abbrev pub create_for : StateMgr → Option ℕ → CreateArgs → ℕ → ℕ → CreateSessionResult × StateMgr
create_for m none args nonce now = (create_refused Status.stale_clientid, m)
create_for m (some a) args nonce now = create_found m a args nonce now

unfoldable pub create_session : StateMgr → CreateArgs → ℕ → ℕ → CreateSessionResult × StateMgr
unfolding find_client create_found
create_session m args nonce now = create_for m (find_client m args.clientid) args nonce now

unfoldable pub persist_client : StateMgr → ℕ → StateMgr
persist_client m a =
    if m.cfg.per_fsid_reclaim then m else store m (Stable.list 0 (m.clients a).owner_id)

unfoldable pub cache_reply : StateMgr → ℕ → List ℕ → StateMgr
unfolding persist_client
cache_reply m a reply =
    let c = m.clients a in
    let m' = write_client m a (record c { cs_cached_reply = reply; persisted = true }) in
    if c.persisted then m' else persist_client m' a

unfoldable pub confirm_for : StateMgr → Option ℕ → ℕ → List ℕ → StateMgr
unfolding find cache_reply
confirm_for m none clientid reply = m
confirm_for m (some a) clientid reply =
    if is_some (find clientid m.registry.by_id) then cache_reply m a reply else m

-- With the reply of a CREATE_SESSION that has succeeded.
unfoldable pub confirm_create_session : StateMgr → ℕ → List ℕ → StateMgr
unfolding find_client confirm_for
confirm_create_session m clientid reply = confirm_for m (find_client m clientid) clientid reply
