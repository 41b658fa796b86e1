-- ===== src/Opens/Tests.antt =====
-- Opens of src/state/state_mgr.cpp on concrete requests.
use lightnfs.Prelude.{
  ℕ, ◌≡◌, ◌↔◌, refl, true, false, ◌==◌, none, some, List, [], ◌∷◌, arith, bytes_eq, ==_iff,
  if◌then◌else◌,
}
use lightnfs.Maps.{bytes, number, find, has}
use lightnfs.Config.{Config}
use lightnfs.Nfs4.Status.{Status}
use lightnfs.Locks.Types.{FileKey, key_eq}
use lightnfs.Grace.Windows.{no_grace}
use lightnfs.Sessions.Types.{Client, StateMgr}
use lightnfs.Clients.Start.{no_clients}
use lightnfs.Clients.Exchange.{new_client}
use lightnfs.Opens.Types.{StateRec, States, file}
use lightnfs.Opens.Start.{no_rec, no_states}
use lightnfs.Opens.Open.{OpenArgs, is_same, open_turn, open_file}
use lightnfs.Opens.Exclusive.{opens_of, IsExclusive}
use lightnfs.Opens.Created.{IsNew}
use lightnfs.Opens.Rounds.{open_turn-IsExclusive}
use lightnfs.Opens.Stateids.{
  open_downgrade, check_io, is_special, is_current, state, find_state, close_found, close_state,
}
use lightnfs.Opens.Closed.{close_state-gone}
use lightnfs.Opens.Narrowed.{open_downgrade-IsExclusive}
use lightnfs.Opens.Io.{IsAllowed, check_io-ok_iff}

abbrev a_config : Config
a_config = record {
  boot_epoch = 1;
  lease_seconds = 90;
  grace_seconds = 0;
  courtesy_multiplier = 24;
  max_slots = 32;
  max_cached_reply = 8192;
  max_ops = 64;
  max_io = 1048576;
  max_clients = 4096;
  max_states_per_client = 65536;
  per_fsid_reclaim = false;
}

abbrev a_file : FileKey
a_file = record { fsid = 7; oid = record { len = 1; bytes = 5 ∷ [] } }

-- One client has the file open for reading, and lets nobody write.
abbrev an_open : StateRec
an_open = record no_rec {
  other = 1 ∷ 0 ∷ 0 ∷ 0 ∷ 1 ∷ 1 ∷ 0 ∷ 0 ∷ 0 ∷ 0 ∷ 0 ∷ 0 ∷ [];
  client = 0;
  fsid = 7;
  oid = record { len = 1; bytes = 5 ∷ [] };
  owner = 3 ∷ [];
  access = 1;
  deny = 2;
}

abbrev a_client : Client
a_client = record (new_client (9 ∷ []) [] [] 4294967297) {
  confirmed = true;
  reclaim_complete = true;
}

abbrev states : States
states = record no_states {
  recs = λ i. if i == 0 then an_open else no_rec;
  table = (an_open.other, 0) ∷ [];
  files = (a_file, record { opens = 0 ∷ []; locks = []; delegs = [] }) ∷ [];
  next_rec = 1;
  next_state = 2;
  open_count = 1;
  file_count = 1;
}

abbrev a_manager : StateMgr
a_manager = record {
  cfg = a_config;
  clients = λ i. a_client;
  sessions = [];
  session_count = 0;
  next_session = 1;
  registry = record no_clients { client_idx = (4294967297, 0) ∷ []; by_id = (4294967297, 0) ∷ [] };
  opens = states;
  grace = no_grace;
  lease_heap = [];
  courtesy_count = 0;
  seq_new = 0;
  seq_replay = 0;
  seq_misordered = 0;
  seq_waits = 0;
}

abbrev ask : List ℕ → ℕ → ℕ → OpenArgs
ask owner access deny = record {
  clientid = 4294967297;
  fsid = 7;
  oid = record { len = 1; bytes = 5 ∷ [] };
  owner = owner;
  access = access;
  deny = deny;
  reclaim = false;
  deleg_claim = false;
}

-- Another owner may read, but not write.
reads : (open_file a_manager (ask (4 ∷ []) 1 0) none 10 10).0.status ≡ Status.ok
unfolding open_file bytes_eq key_eq
reads = refl

writes : (open_file a_manager (ask (4 ∷ []) 2 0) none 10 10).0.status ≡ Status.share_denied
unfolding open_file bytes_eq key_eq
writes = refl

-- The same owner may.
widens : (open_file a_manager (ask (3 ∷ []) 2 0) none 10 10).0.merged ≡ true
unfolding open_file bytes_eq key_eq
widens = refl

only_open : (o : ℕ) → has o (0 ∷ []) ≡ true → o ≡ 0
unfolding has
only_open o h = ground (arith, ==_iff 0 o)

alone : IsExclusive a_manager (0 ∷ [])
unfolding is_same bytes_eq
alone o p ho hp lo lp ne = absurd (same (rw (only_open o ho, only_open p hp) at ne))
  where
    same : true ≡ false → ⊥
    same h = cc

open_turn-IsExclusive_example :
    IsExclusive
      (open_turn a_manager 1 (ask (4 ∷ []) 1 0) none 10).1
      (opens_of (open_turn a_manager 1 (ask (4 ∷ []) 1 0) none 10).1 (ask (4 ∷ []) 1 0))
unfolding key_eq bytes_eq find
open_turn-IsExclusive_example =
    open_turn-IsExclusive a_manager 1 (ask (4 ∷ []) 1 0) none 10 alone new known
  where
    new : IsNew a_manager (0 ∷ [])
    new o h = rw (only_open o h)

    known :
        (o : ℕ)
        → has o (0 ∷ []) ≡ true
        → ((a_manager.clients (a_manager.opens.recs o).client).clientid == 0) ≡ false
    known o h = refl

check_io-ok_iff_example :
    ((check_io a_manager
        (record { seqid = 1; other = an_open.other })
        4294967297
        a_file
        1
        10
        10).0.status
      ≡ Status.ok)
    ↔ ((is_current a_manager (record { seqid = 1; other = an_open.other }) ≡ true)
        × (r : ℕ) × (find an_open.other a_manager.opens.table ≡ some r)
        × IsAllowed a_manager (record { seqid = 1; other = an_open.other }) 4294967297 a_file 1 r)
unfolding is_special
check_io-ok_iff_example =
    check_io-ok_iff a_manager (record { seqid = 1; other = an_open.other }) 4294967297 a_file 1 10
      10 refl

close_state-gone_example : ¬ (
    find_state
      (close_state a_manager (record { seqid = 1; other = an_open.other }) 4294967297 none).2
      (record { seqid = 0; other = an_open.other })
    ≡ state 0)
unfolding find_state close_state close_found bytes_eq
close_state-gone_example =
    close_state-gone a_manager (record { seqid = 1; other = an_open.other }) 4294967297 none 0 0 0
      refl refl refl refl

-- The client lets others write again.
downgrades :
    (open_downgrade a_manager (record { seqid = 1; other = an_open.other }) 4294967297 1 0 none).0
    ≡ Status.ok
unfolding open_downgrade bytes_eq
downgrades = refl

open_downgrade-IsExclusive_example :
    IsExclusive
      (open_downgrade a_manager (record { seqid = 1; other = an_open.other }) 4294967297 1 0 none).2
      (0 ∷ [])
open_downgrade-IsExclusive_example =
    open_downgrade-IsExclusive a_manager (record { seqid = 1; other = an_open.other }) 4294967297 1
      0 none (0 ∷ []) (omega arith) (omega arith) alone
