-- ===== src/Clients/Types.antt =====
-- The tables of clients of src/state/state_mgr.hpp, which hold the addresses of the records, and the
-- calls of the stable store that keeps the owners who may reclaim after a restart.
use lightnfs.Prelude.{ℕ, Bool, false, Option, none, some, List, ◌==◌}

pub record OwnerSlot : Type 0 where
  pub confirmed : Option ℕ
  pub unconfirmed : Option ℕ

-- `cfg_.stable.put` and `cfg_.stable.erase`, with the file system whose list they change.
pub data Stable : Type 0 where
  list : ℕ → List ℕ → Stable
  delist : ℕ → List ℕ → Stable

-- The shards of `by_id` and `by_owner` are whole here, as each is used under the mutex of one owner's
-- shard. `stable` are the calls made, the last one first.
pub record Registry : Type 0 where
  pub by_id : List (ℕ × ℕ)
  pub by_owner : List (List ℕ × OwnerSlot)
  pub client_idx : List (ℕ × ℕ)
  pub next_client : ℕ
  pub next_rec : ℕ
  pub client_count : ℕ
  pub lease_expirations : ℕ
  pub reclaim_conflict : ℕ
  pub reclaim_timeout : ℕ
  pub reclaim_forced : ℕ
  pub stable : List Stable

-- Whether the pointer is to the record at this address.
abbrev pub points : Option ℕ → ℕ → Bool
points none a = false
points (some b) a = b == a
