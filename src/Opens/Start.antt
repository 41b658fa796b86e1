-- ===== src/Opens/Start.antt =====
-- The state tables of a `StateMgr` that has just been made (src/state/state_mgr.hpp).
use lightnfs.Prelude.{[], false, none}
use lightnfs.Locks.Table.{empty_table}
use lightnfs.Opens.Types.{StateRec, States, open_state}

abbrev pub no_rec : StateRec
no_rec = record {
  other = [];
  type = open_state;
  seqid = 1;
  client = 0;
  fsid = 0;
  oid = record { len = 0; bytes = [] };
  owner = [];
  access = 0;
  deny = 0;
  lowner = record { bytes = []; len = 0 };
  parent_open = none;
  bopen = none;
  closed = false;
  fh = [];
  recalled = false;
  recall_deadline = 0;
}

abbrev pub no_states : States
no_states = record {
  recs = λ i. no_rec;
  table = [];
  files = [];
  locks = empty_table;
  lock_owners = [];
  next_rec = 0;
  next_state = 1;
  open_count = 0;
  file_count = 0;
  lock_count = 0;
  deleg_count = 0;
  share_denied = 0;
  open_merges = 0;
  deleg_recalls = 0;
  deleg_returns = 0;
  recall_watch = [];
}
