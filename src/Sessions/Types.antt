-- ===== src/Sessions/Types.antt =====
-- The client and session records of src/state/state_mgr.hpp, the manager that holds them, and the
-- channel attributes of src/nfsv4/nfs4_types.hpp.
use lightnfs.Prelude.{ℕ, ◌+◌, ◌-◌, ◌%◌, ◌^◌, Bool, Option, List}
use lightnfs.Config.{Config}
use lightnfs.Nfs4.Status.{Status}
use lightnfs.Grace.Windows.{Grace}
use lightnfs.Clients.Types.{Registry}
use lightnfs.Opens.Types.{States}

pub record ChannelAttrs : Type 0 where
  pub headerpad : ℕ
  pub max_request : ℕ
  pub max_response : ℕ
  pub max_response_cached : ℕ
  pub max_ops : ℕ
  pub max_requests : ℕ

-- `cv` is the list of the requests that wait, which resume by running again.
pub record Slot : Type 0 where
  pub seqid : ℕ
  pub in_flight : Bool
  pub cached : Bool
  pub reply : List ℕ

-- The times are seconds of the steady clock. `lease_heap_deadline` is none where the code has -1, and
-- `lease_moved_until` is 0 where no migration is announced.
pub record Client : Type 0 where
  pub clientid : ℕ
  pub owner_id : List ℕ
  pub principal : List ℕ
  pub confirmed : Bool
  pub verifier : List ℕ
  pub cs_sequence : ℕ
  pub cs_cached_reply : List ℕ
  pub sessions : List (List ℕ)
  pub reclaim_complete : Bool
  pub persisted : Bool
  pub expired : Bool
  pub courtesy : Bool
  pub courtesy_since : ℕ
  pub lease_expiry : ℕ
  pub lease_heap_deadline : Option ℕ
  pub delegs : ℕ
  pub states : List (List ℕ)
  pub fs_states : List (ℕ × ℕ)
  pub lease_moved_until : ℕ

-- `client` is the address of the record that the session shares. Of the backchannel: its attributes
-- and program, whether a connection is attached, and whether it is marked down.
pub record Session : Type 0 where
  pub client : ℕ
  pub fore : ChannelAttrs
  pub back : ChannelAttrs
  pub slots : List Slot
  pub slot_count : ℕ
  pub bound_conns : List ℕ
  pub cb_attached : Bool
  pub cb_program : ℕ
  pub cb_down : Bool

-- The manager. The session table is whole: its shards spread a mutex, and each operation on it runs
-- under the mutex of one shard.
pub record StateMgr : Type 0 where
  pub cfg : Config
  pub clients : ℕ → Client
  pub sessions : List (List ℕ × Session)
  pub session_count : ℕ
  pub next_session : ℕ
  pub registry : Registry
  pub opens : States
  pub grace : Grace
  pub lease_heap : List (ℕ × ℕ)
  pub courtesy_count : ℕ
  pub seq_new : ℕ
  pub seq_replay : ℕ
  pub seq_misordered : ℕ
  pub seq_waits : ℕ

pub record SeqResult : Type 0 where
  pub status : Status
  pub replay : Bool
  pub replay_bytes : List ℕ
  pub max_ops : ℕ
  pub max_request : ℕ
  pub max_response : ℕ
  pub max_response_cached : ℕ
  pub highest_slot : ℕ
  pub status_flags : ℕ

-- The next value of a counter of 64 bits and the one before it, and the same of 32 bits.
abbrev pub incr64 : ℕ → ℕ
incr64 n = (n + 1) % 2 ^ 64

abbrev pub decr64 : ℕ → ℕ
decr64 n = (n + (2 ^ 64 - 1)) % 2 ^ 64

abbrev pub next32 : ℕ → ℕ
next32 n = (n + 1) % 2 ^ 32

abbrev pub prev32 : ℕ → ℕ
prev32 n = (n + (2 ^ 32 - 1)) % 2 ^ 32
