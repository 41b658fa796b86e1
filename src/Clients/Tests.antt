-- ===== src/Clients/Tests.antt =====
-- Clients of src/state/state_mgr.cpp on concrete requests.
use lightnfs.Prelude.{
  ℕ, ◌≡◌, refl, true, false, none, some, List, [], ◌∷◌, sym, ◌∙◌, arith, All, Bool-cases, inl, inr,
  bytes_eq, bytes_eq-eq,
}
use lightnfs.Maps.{bytes, number, find, has}
use lightnfs.Config.{Config}
use lightnfs.Grace.Windows.{no_grace}
use mathlib.Core.Path.{subst}
use lightnfs.Opens.Types.{StateRec, States, file}
use lightnfs.Opens.Unlink.{file_key}
use lightnfs.Opens.Filed.{IsFiled}
use lightnfs.Opens.Start.{no_rec, no_states}
use lightnfs.Sessions.Types.{ChannelAttrs, StateMgr}
use lightnfs.Sessions.Sequence.{write_client, sequence_begin}
use lightnfs.Sessions.Slots.{is_claim}
use lightnfs.Clients.Start.{no_clients}
use lightnfs.Clients.Exchange.{find_client, new_client}
use lightnfs.Clients.Session.{
  CreateArgs, create_session, confirm_create_session, slot_of, old_incarnation, grant_session,
}
use lightnfs.Clients.View.{view, IsConsistent}
use lightnfs.Clients.Tables.{write_client-view, heap-view}
use lightnfs.Clients.Run.{Event, apply, run, IsRoomy, run-IsConsistent, run-one_confirmed}
use lightnfs.Clients.Created.{again, create_session-replay}
use lightnfs.Clients.Reboot.{create_session-reboot}
use lightnfs.Clients.First.{create_session-admits}

abbrev a_config : Config
a_config = record {
  boot_epoch = 1;
  lease_seconds = 90;
  grace_seconds = 0;
  courtesy_multiplier = 24;
  max_slots = 32;
  max_cached_reply = 8192;
  max_ops = 64;
  max_io = 1048576;
  max_clients = 4096;
  max_states_per_client = 65536;
  per_fsid_reclaim = false;
}

abbrev new_manager : StateMgr
new_manager = record {
  cfg = a_config;
  clients = λ i. new_client [] [] [] 0;
  sessions = [];
  session_count = 0;
  next_session = 1;
  registry = no_clients;
  opens = no_states;
  grace = no_grace;
  lease_heap = [];
  courtesy_count = 0;
  seq_new = 0;
  seq_replay = 0;
  seq_misordered = 0;
  seq_waits = 0;
}

abbrev a_channel : ChannelAttrs
a_channel = record {
  headerpad = 0;
  max_request = 1048576;
  max_response = 1048576;
  max_response_cached = 4096;
  max_ops = 64;
  max_requests = 2;
}

abbrev ask_session : ℕ → CreateArgs
ask_session id = record {
  clientid = id;
  sequence = 1;
  principal = 3 ∷ [];
  fore_req = a_channel;
  back_req = a_channel;
  conn_id = 5;
  cb_attached = false;
  cb_program = 0;
}

abbrev first_id : ℕ
first_id = 4294967297

abbrev second_id : ℕ
second_id = 4294967298

abbrev second_rec : ℕ
second_rec = 1

-- A client registers, and gets a session. Then it reboots, and registers with another verifier.
abbrev registers : List Event
registers = Event.exchange (9 ∷ []) (1 ∷ []) (3 ∷ []) false 10 ∷ []

abbrev reboots : List Event
reboots =
    Event.exchange (9 ∷ []) (1 ∷ []) (3 ∷ []) false 10
    ∷ Event.create (ask_session first_id) 77 11
    ∷ Event.exchange (9 ∷ []) (2 ∷ []) (3 ∷ []) false 12
    ∷ []

registers-IsRoomy : IsRoomy new_manager registers
registers-IsRoomy = (ground arith, tt)

reboots-IsRoomy : IsRoomy new_manager reboots
unfolding apply create_session grant_session bytes_eq
reboots-IsRoomy = (ground arith, (ground arith, (ground arith, tt)))

run-IsConsistent_example : IsConsistent (view (run new_manager reboots))
run-IsConsistent_example = run-IsConsistent new_manager reboots refl reboots-IsRoomy

run-one_confirmed_example : (second_id ≡ second_id) × (second_rec ≡ second_rec)
unfolding run create_session grant_session bytes_eq
run-one_confirmed_example =
    run-one_confirmed new_manager reboots second_id second_id second_rec second_rec refl
      reboots-IsRoomy refl refl refl refl

registered : IsConsistent (view (run new_manager registers))
registered = run-IsConsistent new_manager registers refl registers-IsRoomy

create_session-replay_example :
    create_session
      (confirm_create_session
        (create_session (run new_manager registers) (ask_session first_id) 77 11).1
        first_id
        (4 ∷ []))
      (ask_session first_id)
      78
      12
    ≡ (
      again (4 ∷ []),
      confirm_create_session
          (create_session (run new_manager registers) (ask_session first_id) 77 11).1
          first_id
          (4 ∷ []),
    )
unfolding run create_session grant_session bytes_eq
create_session-replay_example =
    create_session-replay (run new_manager registers) (ask_session first_id) 77 11 (4 ∷ []) 78 12
      registered (refl, refl)

-- Before the new incarnation is confirmed the old one has a file open.
abbrev held_open : StateRec
held_open = record no_rec { other = 5 ∷ []; client = 0; fsid = 7 }

abbrev held_states : States
held_states = record no_states {
  recs = λ i. held_open;
  table = (held_open.other, 0) ∷ [];
  files = (file_key held_open, record { opens = 0 ∷ []; locks = []; delegs = [] }) ∷ [];
  next_rec = 1;
  open_count = 1;
  file_count = 1;
}

abbrev opened : StateMgr
opened = record (run new_manager reboots) { opens = held_states }

abbrev holding : StateMgr
holding = write_client opened 0 (record (opened.clients 0) { states = held_open.other ∷ [] })

holding-IsConsistent : IsConsistent (view holding)
holding-IsConsistent =
    subst IsConsistent
      (sym (
        write_client-view opened 0 (record (opened.clients 0) { states = held_open.other ∷ [] })
          refl
        ∙ heap-view (run new_manager reboots) opened refl refl refl))
      run-IsConsistent_example

held_states-IsFiled : IsFiled held_states
unfolding find
held_states-IsFiled j r h = elim (Bool-cases (bytes_eq held_open.other j)) [
  | inl q ↦ (bytes_eq-eq held_open.other j q, refl)
  | inr q ↦ let none_there : none ≡ some r = rw q at h in let bad : ⊥ = cc in absurd bad
]

create_session-reboot_example :
    (find_client (create_session holding (ask_session second_id) 78 13).1 first_id ≡ none)
    × All
        (λ id. find id (create_session holding (ask_session second_id) 78 13).1.sessions ≡ none)
        (holding.clients 0).sessions
    × All
        (λ j. find j (create_session holding (ask_session second_id) 78 13).1.opens.table ≡ none)
        (holding.clients 0).states
    × (find_client (create_session holding (ask_session second_id) 78 13).1 second_id ≡ some 1)
    × (((create_session holding (ask_session second_id) 78 13).1.clients 1).confirmed ≡ true)
unfolding run create_session grant_session slot_of bytes_eq
create_session-reboot_example =
    create_session-reboot holding (ask_session second_id) 78 13 1 0 holding-IsConsistent
      held_states-IsFiled refl refl refl (refl, refl)

create_session-admits_example :
    is_claim
      (sequence_begin
        (create_session (run new_manager registers) (ask_session first_id) 77 11).1
        (create_session (run new_manager registers) (ask_session first_id) 77 11).0.sessionid
        1
        1
        1
        5
        true
        12).0
    ≡ true
unfolding run create_session grant_session old_incarnation has bytes_eq
create_session-admits_example =
    create_session-admits (run new_manager registers) (ask_session first_id) 77 11 0 1 1 5 true 12
      refl refl (refl, refl) refl (ground arith) (ground arith)
