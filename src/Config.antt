-- ===== src/Config.antt =====
-- `StateMgr::Config` of src/state/state_mgr.hpp. The hooks for native locks are left out, and of the
-- stable store only the calls count (see Clients.Types).
use lightnfs.Prelude.{ℕ, Bool}

pub record Config : Type 0 where
  pub boot_epoch : ℕ
  pub lease_seconds : ℕ
  pub grace_seconds : ℕ
  pub courtesy_multiplier : ℕ
  pub max_slots : ℕ
  pub max_cached_reply : ℕ
  pub max_ops : ℕ
  pub max_io : ℕ
  pub max_clients : ℕ
  pub max_states_per_client : ℕ
  pub per_fsid_reclaim : Bool
