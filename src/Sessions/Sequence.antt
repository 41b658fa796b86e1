-- ===== src/Sessions/Sequence.antt =====
-- `sequence_begin`, `sequence_complete`, `sequence_abort` and the lease renewal of
-- src/state/state_mgr.cpp.
use lightnfs.Prelude.{
  ℕ, ◌+◌, Bool, true, false, ◌&&◌, not, Option, none, some, List, [], ◌∷◌, ltb, leb, ◌==◌,
  if◌then◌else◌, get_elem?, set,
}
use lightnfs.Nfs4.Status.{Status}
use lightnfs.Maps.{bytes, find, put}
use lightnfs.Sessions.Types.{
  Slot, Client, Session, StateMgr, SeqResult, incr64, decr64, next32, prev32,
}

abbrev pub write_client : StateMgr → ℕ → Client → StateMgr
write_client m a c = record m { clients = λ i. if i == a then c else m.clients i }

abbrev pub armed_by : Option ℕ → ℕ → Bool
armed_by none when = false
armed_by (some d) when = leb d when

-- An earlier live entry of the heap pops first and arms again.
unfoldable pub arm_lease_check : StateMgr → ℕ → ℕ → StateMgr
arm_lease_check m a when =
    let c = m.clients a in
    if armed_by c.lease_heap_deadline when
    then m
    else record (write_client m a (record c { lease_heap_deadline = some when })) {
      lease_heap = (when, c.clientid) ∷ m.lease_heap;
    }

unfoldable pub renew : StateMgr → ℕ → ℕ → StateMgr
unfolding arm_lease_check
renew m a now =
    let c = m.clients a in
    let expiry = now + m.cfg.lease_seconds in
    let m' = write_client m a (record c { lease_expiry = expiry; courtesy = false }) in
    if c.courtesy
    then arm_lease_check (record m' { courtesy_count = decr64 m'.courtesy_count }) a expiry
    else m'

-- What the code does with a request on a slot, before it does it.
pub data Decision : Type 0 where
  wait busy claim again misordered : Decision

unfoldable pub decide : Slot → ℕ → Decision
decide slot seqid =
    if slot.in_flight
    then (if seqid == next32 slot.seqid then Decision.wait else Decision.busy)
    else if seqid == next32 slot.seqid
    then Decision.claim
    else if seqid == slot.seqid && not (slot.seqid == 0)
    then Decision.again
    else Decision.misordered

-- A default result with a status.
abbrev pub refuse : Status → SeqResult
refuse s = record {
  status = s;
  replay = false;
  replay_bytes = [];
  max_ops = 0;
  max_request = 0;
  max_response = 0;
  max_response_cached = 0;
  highest_slot = 0;
  status_flags = 0;
}

unfoldable pub write_slot : StateMgr → List ℕ → Session → ℕ → Slot → StateMgr
write_slot m id s slotid slot = record m {
  sessions = put id (record s { slots = set s.slots slotid slot }) m.sessions;
}

-- `chan_alive` is what the transport says of the backchannel's connection.
unfoldable pub status_flags : Client → Session → Bool → ℕ → ℕ
status_flags c s chan_alive now =
    (if ltb 0 c.delegs && not (s.cb_attached && chan_alive && not s.cb_down) then 1 else 0)
    + (if not (c.lease_moved_until == 0) && ltb now c.lease_moved_until then 128 else 0)

unfoldable pub claimed : Client → Session → Bool → ℕ → SeqResult
unfolding status_flags
claimed c s chan_alive now = record {
  status = Status.ok;
  replay = false;
  replay_bytes = [];
  max_ops = s.fore.max_ops;
  max_request = s.fore.max_request;
  max_response = s.fore.max_response;
  max_response_cached = s.fore.max_response_cached;
  highest_slot = prev32 s.slot_count;
  status_flags = status_flags c s chan_alive now;
}

unfoldable pub replayed : Slot → SeqResult
replayed slot =
    if slot.cached
    then record (refuse Status.ok) { replay = true; replay_bytes = slot.reply }
    else record (refuse Status.retry_uncached_rep) { replay = true }

-- The request waits on its slot, or has its answer.
pub data Verdict : Type 0 where
  parked : Verdict
  answer : SeqResult → Verdict

-- The rest of a round, on the slot that the request names.
unfoldable pub act :
    StateMgr → List ℕ → Session → ℕ → Slot → Bool → ℕ → Decision → Verdict × StateMgr
unfolding renew write_slot claimed replayed
act m id s slotid slot chan_alive now Decision.wait =
    (parked, record m { seq_waits = incr64 m.seq_waits })
act m id s slotid slot chan_alive now Decision.busy = (answer (refuse Status.seq_misordered), m)
act m id s slotid slot chan_alive now Decision.claim =
    let m' = renew (write_slot m id s slotid (record slot { in_flight = true })) s.client now in
    (
      answer (claimed (m'.clients s.client) s chan_alive now),
      record m' { seq_new = incr64 m'.seq_new },
    )
act m id s slotid slot chan_alive now Decision.again =
    let m' = renew m s.client now in
    (answer (replayed slot), record m' { seq_replay = incr64 m'.seq_replay })
act m id s slotid slot chan_alive now Decision.misordered =
    (answer (refuse Status.seq_misordered), record m { seq_misordered = incr64 m.seq_misordered })

abbrev pub insert_conn : ℕ → List ℕ → List ℕ
insert_conn c [] = c ∷ []
insert_conn c (d ∷ conns) = let rest = insert_conn c conns in if d == c then d ∷ conns else d ∷ rest

unfoldable pub on_slot :
    StateMgr → List ℕ → Session → ℕ → ℕ → Bool → ℕ → Option Slot → Verdict × StateMgr
unfolding act decide
on_slot m id s slotid seqid chan_alive now none = (answer (refuse Status.badslot), m)
on_slot m id s slotid seqid chan_alive now (some slot) =
    act m id s slotid slot chan_alive now (decide slot seqid)

unfoldable pub on_session :
    StateMgr → List ℕ → ℕ → ℕ → ℕ → ℕ → Bool → ℕ → Option Session → Verdict × StateMgr
unfolding put on_slot
on_session m id slotid seqid highest conn chan_alive now none =
    (answer (refuse Status.badsession), m)
on_session m id slotid seqid highest conn chan_alive now (some s) =
    if (m.clients s.client).expired
    then (answer (refuse Status.badsession), m)
    else let s' = record s { bound_conns = insert_conn conn s.bound_conns } in
      let m' = record m { sessions = put id s' m.sessions } in
      if leb s.slot_count slotid
      then (answer (refuse Status.badslot), m')
      else if leb s.slot_count highest
      then (answer (refuse Status.bad_high_slot), m')
      else on_slot m' id s' slotid seqid chan_alive now (get_elem? s'.slots slotid)

-- One round of the loop of `sequence_begin`: a request that is parked runs it again when its slot
-- wakes it.
unfoldable pub sequence_begin : StateMgr → List ℕ → ℕ → ℕ → ℕ → ℕ → Bool → ℕ → Verdict × StateMgr
unfolding find on_session
sequence_begin m id slotid seqid highest conn chan_alive now =
    on_session m id slotid seqid highest conn chan_alive now (find id m.sessions)

unfoldable pub update_found :
    StateMgr → List ℕ → Session → ℕ → (Slot → Slot) → Option Slot → StateMgr
unfolding write_slot
update_found m id s slotid f none = m
update_found m id s slotid f (some slot) = write_slot m id s slotid (f slot)

unfoldable pub update_in : StateMgr → List ℕ → ℕ → (Slot → Slot) → Option Session → StateMgr
unfolding update_found
update_in m id slotid f none = m
update_in m id slotid f (some s) =
    if ltb slotid s.slot_count then update_found m id s slotid f (get_elem? s.slots slotid) else m

-- A change of one slot, if its session and it are there.
unfoldable pub update_slot : StateMgr → List ℕ → ℕ → (Slot → Slot) → StateMgr
unfolding find update_in
update_slot m id slotid f = update_in m id slotid f (find id m.sessions)

unfoldable pub sequence_abort : StateMgr → List ℕ → ℕ → StateMgr
unfolding update_slot
sequence_abort m id slotid = update_slot m id slotid (λ slot. record slot { in_flight = false })

abbrev pub completed : ℕ → Bool → List ℕ → Slot
completed seqid cache reply = record {
  seqid = seqid;
  in_flight = false;
  cached = cache;
  reply = if cache then reply else [];
}

unfoldable pub sequence_complete : StateMgr → List ℕ → ℕ → ℕ → Bool → List ℕ → StateMgr
unfolding update_slot
sequence_complete m id slotid seqid cache reply =
    update_slot m id slotid (λ slot. completed seqid cache reply)
