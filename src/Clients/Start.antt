-- ===== src/Clients/Start.antt =====
-- The tables of clients of a `StateMgr` that has just been made (src/state/state_mgr.hpp).
use lightnfs.Prelude.{[]}
use lightnfs.Clients.Types.{Registry}

abbrev pub no_clients : Registry
no_clients = record {
  by_id = [];
  by_owner = [];
  client_idx = [];
  next_client = 1;
  next_rec = 0;
  client_count = 0;
  lease_expirations = 0;
  reclaim_conflict = 0;
  reclaim_timeout = 0;
  reclaim_forced = 0;
  stable = [];
}
