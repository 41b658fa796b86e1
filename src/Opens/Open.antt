-- ===== src/Opens/Open.antt =====
-- OPEN of src/state/state_mgr.cpp: `open`, `share_conflict`, `new_other`, `track_state_locked` and
-- `start_recall`. The call that recalls a delegation and the handle of the backend that the caller
-- drops are left out. `clock` is the steady clock in nanoseconds, `now` in seconds.
mod Shares
unfoldable pub use Shares.*
use lightnfs.Prelude.{
  ℕ, zero, suc, ◌+◌, ◌%◌, ◌^◌, bit_or, Bool, true, false, ◌&&◌, ◌||◌, not, Option, none, some, List,
  [], ◌∷◌, ◌++◌, leb, ◌==◌, if◌then◌else◌, bytes_eq, length, replicate, any_bit,
}
use lightnfs.Maps.{bytes, number, find, put, erase, add}
use lightnfs.Nfs4.Status.{Status, code}
use lightnfs.Locks.Types.{ObjId, FileKey}
use lightnfs.Grace.Windows.{is_nil, in_grace, in_stable_list}
use lightnfs.Clients.Types.{Stable}
use lightnfs.Sessions.Types.{Client, StateMgr, incr64, next32}
use lightnfs.Sessions.Sequence.{write_client}
use lightnfs.Opens.Types.{
  StateType, StateRec, FileStateRec, file, open_state, lock_state, deleg_state,
}
use lightnfs.Opens.Start.{no_rec}
use lightnfs.Opens.Unlink.{write_rec, store, each, is_unused, unlink_state}
use lightnfs.Clients.Exchange.{find_client}
use lightnfs.Clients.Session.{le_bytes}
use lightnfs.Clients.Leave.{expire_client, conflict}

-- The open of the same owner on the same file becomes wider.
unfoldable pub merge : StateMgr → ℕ → OpenArgs → StateMgr
merge m r args =
    let rec = m.opens.recs r in
    let m' = write_rec m r (record rec {
      access = bit_or rec.access args.access;
      deny = bit_or rec.deny args.deny;
      seqid = next32 rec.seqid;
    }) in
    record m' { opens = record m'.opens { open_merges = incr64 m'.opens.open_merges } }

abbrev pub new_rec : StateMgr → ℕ → OpenArgs → Option ℕ → StateRec
new_rec m a args bopen = record no_rec {
  other = new_other m open_state;
  client = a;
  fsid = args.fsid;
  oid = args.oid;
  owner = args.owner;
  access = args.access;
  deny = args.deny;
  bopen = bopen;
}

abbrev pub args_key : OpenArgs → FileKey
args_key args = record { fsid = args.fsid; oid = args.oid }

abbrev pub put_file : StateMgr → FileKey → FileStateRec → StateMgr
put_file m key f = record m { opens = record m.opens { files = put key f m.opens.files } }

abbrev pub erase_file : StateMgr → FileKey → StateMgr
erase_file m key = record m { opens = record m.opens { files = erase key m.opens.files } }

-- A new open, in its file.
unfoldable pub create : StateMgr → ℕ → OpenArgs → Option ℕ → FileStateRec → StateMgr
unfolding new_other put
create m a args bopen f =
    let r = m.opens.next_rec in
    let m' = write_rec m r (new_rec m a args bopen) in
    let count = if is_nil f.opens then incr64 m'.opens.file_count else m'.opens.file_count in
    put_file
      (record m' {
        opens = record m'.opens {
          next_rec = r + 1;
          next_state = incr64 m'.opens.next_state;
          file_count = count;
        };
      })
      (args_key args) (record f { opens = f.opens ++ r ∷ [] })

abbrev pub file_or_new : Option FileStateRec → FileStateRec
file_or_new none = record { opens = []; locks = []; delegs = [] }
file_or_new (some f) = f

-- What a round under the mutex of the file's shard comes to.
pub data Round : Type 0 where
  refused : Status → Round
  reclaim : ℕ → Round
  widened : ℕ → Round
  created : ℕ → Round

abbrev pub granted : StateMgr → ℕ → OpenArgs → Option ℕ → FileStateRec → Option ℕ → Round × StateMgr
granted m a args bopen f none = (created m.opens.next_rec, create m a args bopen f)
granted m a args bopen f (some r) = (widened r, merge m r args)

-- The delegations that a write invalidates.
unfoldable pub recalls_of : StateMgr → OpenArgs → FileStateRec → Arbitration → List ℕ
unfolding live_delegs
recalls_of m args f v =
    if v.courtesy == 0 && not v.denied && any_bit args.access 2 && not args.deleg_claim
    then live_delegs m f.delegs
    else []

abbrev pub start_reclaim : StateMgr → FileKey → FileStateRec → ℕ → Round × StateMgr
start_reclaim m key f id = (reclaim id, if is_nil f.opens then erase_file m key else m)

abbrev pub deny_share : StateMgr → FileKey → FileStateRec → Round × StateMgr
deny_share m key f =
    let m' = if is_unused f then erase_file m key else m in
    (
      refused Status.share_denied,
      record m' { opens = record m'.opens { share_denied = incr64 m'.opens.share_denied } },
    )

-- Without a recall.
abbrev pub settle :
    StateMgr → ℕ → OpenArgs → Option ℕ → FileStateRec → Arbitration → Round × StateMgr
settle m a args bopen f v =
    if not (v.courtesy == 0)
    then start_reclaim m (args_key args) f v.courtesy
    else if v.denied
    then deny_share m (args_key args) f
    else granted m a args bopen f v.mine

abbrev pub recall_all : StateMgr → ℕ → List ℕ → Round × StateMgr
recall_all m now ds = (refused Status.delay, each (start_recall now) m ds)

unfoldable pub open_round :
    StateMgr → ℕ → OpenArgs → Option ℕ → ℕ → FileStateRec → Arbitration → Round × StateMgr
unfolding recalls_of start_recall merge create erase
open_round m a args bopen now f v =
    let recalls = recalls_of m args f v in
    if is_nil recalls then settle m a args bopen f v else recall_all m now recalls

-- A round makes the file's entry, and arbitrates.
unfoldable pub open_turn : StateMgr → ℕ → OpenArgs → Option ℕ → ℕ → Round × StateMgr
unfolding find put arbitrate open_round
open_turn m a args bopen now =
    let key = args_key args in
    let f = file_or_new (find key m.opens.files) in
    let m' = put_file m key f in open_round m' a args bopen now f (arbitrate m' a args f.opens none)

abbrev pub count_up : ℕ → List (ℕ × ℕ) → Option ℕ → Bool × List (ℕ × ℕ)
count_up fsid counts none = (true, put fsid 1 counts)
count_up fsid counts (some n) = (next32 n == 1, put fsid (next32 n) counts)

-- Whether it is the client's first state in its file system.
unfoldable pub track_state : Client → StateRec → Bool × Client
unfolding add find put
track_state c rec =
    let (first, counts) = count_up rec.fsid c.fs_states (find rec.fsid c.fs_states) in
    (first, record c { states = add rec.other c.states; fs_states = counts })

abbrev pub opened : StateMgr → ℕ → Bool → OpenResult
opened m r merged =
    let rec = m.opens.recs r in
    record {
      status = Status.ok;
      stateid = record { seqid = rec.seqid; other = rec.other };
      merged = merged;
    }

-- A new open joins the table and its client, unless the client has been reclaimed meanwhile.
unfoldable pub register : StateMgr → ℕ → ℕ → OpenResult × StateMgr
unfolding put track_state unlink_state
register m a r =
    let rec = m.opens.recs r in
    let m1 = record m {
      opens = record m.opens {
        table = put rec.other r m.opens.table;
        open_count = incr64 m.opens.open_count;
      };
    } in
    let c = m1.clients a in
    let (first, c') = track_state c rec in
    let m2 = write_client m1 a c' in
    let m3 =
      if first && m2.cfg.per_fsid_reclaim then store m2 (Stable.list rec.fsid c.owner_id) else m2 in
    if c.expired
    then (open_refused Status.expired, unlink_state m1 r false false)
    else (opened m3 r false, m3)

abbrev pub finish : ℕ → Round → StateMgr → OpenResult × StateMgr
finish a (refused s) m = (open_refused s, m)
finish a (reclaim id) m = (open_refused Status.delay, m)
finish a (widened r) m = (opened m r true, m)
finish a (created r) m = register m a r

-- A client in courtesy that is in the way is reclaimed, and the round repeated: eight times, after
-- which the client is told to wait.
unfoldable pub open_rounds : ℕ → StateMgr → ℕ → OpenArgs → Option ℕ → ℕ → Round × StateMgr
unfolding open_turn expire_client
open_rounds zero m a args bopen now = open_turn m a args bopen now
open_rounds (suc n) m a args bopen now =
    let (round, m') = open_turn m a args bopen now in
    elim round [
      | refused s ↦ (refused s, m')
      | reclaim id ↦ open_rounds n (expire_client m' id conflict).1 a args bopen now
      | widened r ↦ (widened r, m')
      | created r ↦ (created r, m')
    ]

abbrev pub open_gated : ℕ → OpenArgs → Option ℕ → ℕ → Status × StateMgr → OpenResult × StateMgr
open_gated a args bopen now (s, m) =
    let (round, m') = open_rounds 8 m a args bopen now in
    if code s == 0 then finish a round m' else (open_refused s, m)

abbrev pub open_for : StateMgr → Option ℕ → OpenArgs → Option ℕ → ℕ → ℕ → OpenResult × StateMgr
open_for m none args bopen now clock = (open_refused Status.stale_clientid, m)
open_for m (some a) args bopen now clock =
    let c = m.clients a in
    if not c.confirmed
    then (open_refused Status.stale_clientid, m)
    else if c.expired
    then (open_refused Status.expired, m)
    else open_gated a args bopen now (gate m a args clock)

unfoldable pub open_file : StateMgr → OpenArgs → Option ℕ → ℕ → ℕ → OpenResult × StateMgr
unfolding find_client gate open_rounds register code
open_file m args bopen now clock = open_for m (find_client m args.clientid) args bopen now clock
