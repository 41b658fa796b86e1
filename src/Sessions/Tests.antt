-- ===== src/Sessions/Tests.antt =====
-- Requests on the slots of one session of src/state/state_mgr.cpp.
use lightnfs.Prelude.{
  ℕ, zero, suc, get_elem?, bytes_eq, Bool-cases, inl, inr, ◌↔◌, ◌≡◌, refl, true, false, none, some,
  List, [], ◌∷◌, length, ◌%◌, ◌^◌,
}
use lightnfs.Config.{Config}
use lightnfs.Grace.Windows.{no_grace}
use lightnfs.Clients.Start.{no_clients}
use lightnfs.Opens.Start.{no_states}
use lightnfs.Maps.{bytes, find, put}
use lightnfs.Sessions.Types.{ChannelAttrs, Slot, Client, Session, StateMgr}
use lightnfs.Sessions.Sequence.{sequence_begin, sequence_complete, sequence_abort}
use lightnfs.Sessions.Slots.{is_claim, Round}
use lightnfs.Sessions.Sized.{IsSized, put-IsSized}
use lightnfs.Sessions.Steps.{sequence_begin-Round}
use lightnfs.Sessions.Log.{Event, run, executing, executed, IsConsecutive}
use lightnfs.Sessions.Trace.{IsFresh, start, run-exactly_once}
use lightnfs.Sessions.Replay.{Repeats, is_replay, sequence_begin-replay}
use lightnfs.Sessions.Admits.{IsReady, sequence_begin-claim_iff}

nothing : (s : Session) → none ≡ some s → ⊥
nothing s h = cc

no_slot : (slot : Slot) → none ≡ some slot → ⊥
no_slot slot h = cc

abbrev empty_slot : Slot
empty_slot = record { seqid = 0; in_flight = false; cached = false; reply = [] }

abbrev a_client : Client
a_client = record {
  clientid = 4294967297;
  owner_id = 9 ∷ [];
  principal = [];
  confirmed = true;
  verifier = [];
  cs_sequence = 2;
  cs_cached_reply = [];
  reclaim_complete = true;
  persisted = true;
  sessions = (7 ∷ []) ∷ [];
  expired = false;
  courtesy = false;
  courtesy_since = 0;
  lease_expiry = 90;
  lease_heap_deadline = some 90;
  delegs = 0;
  states = [];
  fs_states = [];
  lease_moved_until = 0;
}

abbrev a_channel : ChannelAttrs
a_channel = record {
  headerpad = 0;
  max_request = 1048576;
  max_response = 1048576;
  max_response_cached = 4096;
  max_ops = 64;
  max_requests = 2;
}

abbrev a_session : Session
a_session = record {
  client = 0;
  fore = a_channel;
  back = a_channel;
  slots = empty_slot ∷ empty_slot ∷ [];
  slot_count = 2;
  bound_conns = [];
  cb_attached = false;
  cb_program = 0;
  cb_down = false;
}

abbrev a_config : Config
a_config = record {
  boot_epoch = 1;
  lease_seconds = 90;
  grace_seconds = 0;
  courtesy_multiplier = 24;
  max_slots = 32;
  max_cached_reply = 8192;
  max_ops = 64;
  max_io = 1048576;
  max_clients = 4096;
  max_states_per_client = 65536;
  per_fsid_reclaim = false;
}

abbrev table : StateMgr
table = record {
  cfg = a_config;
  clients = λ i. a_client;
  sessions = ((7 ∷ []), a_session) ∷ [];
  session_count = 1;
  next_session = 1;
  registry = no_clients;
  opens = no_states;
  grace = no_grace;
  lease_heap = [];
  courtesy_count = 0;
  seq_new = 0;
  seq_replay = 0;
  seq_misordered = 0;
  seq_waits = 0;
}

-- A request, its duplicate while it executes, its reply, its repetition, and the next request.
abbrev events : List Event
events =
    Event.request (7 ∷ []) 0 1 1 5 true 10
    ∷ Event.request (7 ∷ []) 0 1 1 5 true 11
    ∷ Event.finish 0 true (4 ∷ [])
    ∷ Event.request (7 ∷ []) 0 1 1 5 true 12
    ∷ Event.request (7 ∷ []) 0 2 1 5 true 13
    ∷ Event.drop 0
    ∷ []

table-IsSized : IsSized table.sessions
unfolding find put
table-IsSized =
    put-IsSized [] (7 ∷ []) a_session refl (record { sized = λ id s e. absurd (nothing s e) })

two_slots-fresh :
    (k : ℕ) (slot : Slot)
    → get_elem? (empty_slot ∷ empty_slot ∷ []) k ≡ some slot
    → (slot.seqid ≡ 0) × (slot.in_flight ≡ false) × (slot.cached ≡ false)
two_slots-fresh zero slot h = let same : empty_slot ≡ slot = cc in rw (← same) (refl, refl, refl)
two_slots-fresh (suc zero) slot h =
    let same : empty_slot ≡ slot = cc in rw (← same) (refl, refl, refl)
two_slots-fresh (suc (suc k)) slot h = absurd (no_slot slot h)

table-IsFresh : IsFresh table
unfolding find
table-IsFresh j k slot e = elim (Bool-cases (bytes_eq (7 ∷ []) j)) [
  | inl q ↦ two_slots-fresh k slot (rw q at e)
  | inr q ↦ absurd (no_slot slot (rw q at e))
]

executed_once : length (executed (run (start table) events).log (7 ∷ []) 0) ≡ 1
unfolding run sequence_begin is_claim sequence_complete sequence_abort bytes_eq
executed_once = refl

run-exactly_once_example :
    IsConsecutive (executed (run (start table) events).log (7 ∷ []) 0)
    × (1 ≡ length (executed (run (start table) events).log (7 ∷ []) 0) % 2 ^ 32)
    × (executing (run (start table) events).claims (7 ∷ []) 0 ≡ [])
unfolding run sequence_begin is_claim sequence_complete sequence_abort bytes_eq
run-exactly_once_example =
    run-exactly_once table events table-IsSized table-IsFresh (7 ∷ []) 0
      (record { seqid = 1; in_flight = false; cached = true; reply = 4 ∷ [] }) refl

sequence_begin-replay_example :
    Repeats
      (executed (run (start table) events).log (7 ∷ []) 0)
      1
      (sequence_begin (run (start table) events).mgr (7 ∷ []) 0 1 1 5 true 20).0
unfolding run sequence_begin is_claim sequence_complete sequence_abort bytes_eq is_replay
sequence_begin-replay_example =
    sequence_begin-replay table events table-IsSized table-IsFresh (7 ∷ []) 0 1 1 5 true 20 refl

sequence_begin-claim_iff_example :
    (is_claim (sequence_begin table (7 ∷ []) 1 1 1 5 true 10).0 ≡ true)
    ↔ IsReady table (7 ∷ []) 1 1 1
sequence_begin-claim_iff_example = sequence_begin-claim_iff table (7 ∷ []) 1 1 1 5 true 10

sequence_begin-Round_example :
    Round table (7 ∷ []) 1 1 (sequence_begin table (7 ∷ []) 1 1 1 5 true 10)
sequence_begin-Round_example = sequence_begin-Round table (7 ∷ []) 1 1 1 5 true 10
