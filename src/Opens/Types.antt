-- ===== src/Opens/Types.antt =====
-- The state records of src/state/state_mgr.hpp and the tables that hold them. A record is shared by
-- the tables: they hold its address.
use lightnfs.Prelude.{ℕ, Bool, Option, List}
use lightnfs.Maps.{Key}
use lightnfs.Locks.Types.{ObjId, FileKey, LockOwnerId, key_eq, key_eq-eq, key_eq_refl}
use lightnfs.Locks.Table.{LockTable}

pub data StateType : Type 0 where
  open_state lock_state deleg_state : StateType

-- `client` and `parent_open` are addresses. `bopen` is the handle of the backend, which the manager
-- only stores and drops: a number that names it.
pub record StateRec : Type 0 where
  pub other : List ℕ
  pub type : StateType
  pub seqid : ℕ
  pub client : ℕ
  pub fsid : ℕ
  pub oid : ObjId
  pub owner : List ℕ
  pub access : ℕ
  pub deny : ℕ
  pub lowner : LockOwnerId
  pub parent_open : Option ℕ
  pub bopen : Option ℕ
  pub closed : Bool
  pub fh : List ℕ
  pub recalled : Bool
  pub recall_deadline : ℕ

pub record FileStateRec : Type 0 where
  pub opens : List ℕ
  pub locks : List ℕ
  pub delegs : List ℕ

instance abbrev pub file : Key FileKey
file = record { beq = key_eq; beq-eq = key_eq-eq; beq_refl = key_eq_refl }

-- `lock_owners` resolves the bytes of a lock owner to the address of its client and its name.
pub record States : Type 0 where
  pub recs : ℕ → StateRec
  pub table : List (List ℕ × ℕ)
  pub files : List (FileKey × FileStateRec)
  pub locks : LockTable
  pub lock_owners : List (List ℕ × ℕ × List ℕ)
  pub next_rec : ℕ
  pub next_state : ℕ
  pub open_count : ℕ
  pub file_count : ℕ
  pub lock_count : ℕ
  pub deleg_count : ℕ
  pub share_denied : ℕ
  pub open_merges : ℕ
  pub deleg_recalls : ℕ
  pub deleg_returns : ℕ
  pub recall_watch : List ℕ
