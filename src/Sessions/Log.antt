-- ===== src/Sessions/Log.antt =====
-- The slots of src/state/state_mgr.cpp under any interleaving of requests, beside a log of what was
-- executed. As in src/nfsv4/engine.cpp, a request that was told to execute ends by
-- `sequence_complete` with its own sequence number, or by `sequence_abort`.
use lightnfs.Prelude.{
  ℕ, zero, suc, ◌%◌, ◌^◌, ◌≡◌, refl, Bool, false, Option, none, some, List, [], ◌∷◌, if◌then◌else◌,
  get_elem?, arith, length,
}
use lightnfs.Sessions.Types.{Slot, Client, StateMgr, next32}
use lightnfs.Sessions.Sequence.{sequence_begin, sequence_abort, sequence_complete, write_client}
use lightnfs.Sessions.Bind.{bind_conn, destroy_session}
use lightnfs.Sessions.Slots.{slot_at, same_slot, is_claim}

-- A request that executes.
pub record Claim : Type 0 where
  pub id : List ℕ
  pub slotid : ℕ
  pub seqid : ℕ

pub record Done : Type 0 where
  pub claim : Claim
  pub cached : Bool
  pub reply : List ℕ

-- The manager, the requests that execute, and the executed ones, newest first.
pub record Run : Type 0 where
  pub mgr : StateMgr
  pub claims : List Claim
  pub log : List Done

-- `finish` and `drop` name a request by its place among those that execute. `touch` is any other
-- part of the server that writes a client record.
pub data Event : Type 0 where
  request : List ℕ → ℕ → ℕ → ℕ → ℕ → Bool → ℕ → Event
  finish : ℕ → Bool → List ℕ → Event
  drop : ℕ → Event
  bind : List ℕ → ℕ → Event
  destroy : List ℕ → ℕ → Event
  touch : ℕ → Client → Event

abbrev pub remove_at : List Claim → ℕ → List Claim
remove_at [] n = []
remove_at (c ∷ claims) zero = claims
remove_at (c ∷ claims) (suc n) = c ∷ remove_at claims n

unfoldable pub finished : Run → ℕ → Bool → List ℕ → Option Claim → Run
finished r n cache reply none = r
finished r n cache reply (some c) = record {
  mgr = sequence_complete r.mgr c.id c.slotid c.seqid cache reply;
  claims = remove_at r.claims n;
  log = record { claim = c; cached = cache; reply = reply } ∷ r.log;
}

unfoldable pub dropped : Run → ℕ → Option Claim → Run
dropped r n none = r
dropped r n (some c) = record r {
  mgr = sequence_abort r.mgr c.id c.slotid;
  claims = remove_at r.claims n;
}

unfoldable pub step : Run → Event → Run
unfolding finished dropped
step r (request id slotid seqid highest conn alive now) =
    let v = sequence_begin r.mgr id slotid seqid highest conn alive now in
    record r {
      mgr = v.1;
      claims =
          if is_claim v.0
          then record { id = id; slotid = slotid; seqid = seqid } ∷ r.claims
          else r.claims;
    }
step r (finish n cache reply) = finished r n cache reply (get_elem? r.claims n)
step r (drop n) = dropped r n (get_elem? r.claims n)
step r (bind id conn) = record r { mgr = (bind_conn r.mgr id conn).1 }
step r (destroy id conn) = record r { mgr = (destroy_session r.mgr id conn).1 }
step r (touch a c) = record r { mgr = write_client r.mgr a c }

unfoldable pub run : Run → List Event → Run
unfolding step
run r [] = r
run r (e ∷ events) = run (step r e) events

-- The sequence numbers that execute on a slot, and its part of the log.
abbrev pub executing : List Claim → List ℕ → ℕ → List ℕ
executing [] j k = []
executing (c ∷ claims) j k =
    if same_slot c.id c.slotid j k then c.seqid ∷ executing claims j k else executing claims j k

abbrev pub executed : List Done → List ℕ → ℕ → List Done
executed [] j k = []
executed (d ∷ log) j k =
    if same_slot d.claim.id d.claim.slotid j k then d ∷ executed log j k else executed log j k

abbrev pub last_seqid : List Done → ℕ
last_seqid [] = 0
last_seqid (d ∷ log) = d.claim.seqid

-- Each request has the number after that of the one before it, and the first has 1.
abbrev pub IsConsecutive : List Done → Type 0
IsConsecutive [] = Unit {0}
IsConsecutive (d ∷ log) = (d.claim.seqid ≡ next32 (last_seqid log)) × IsConsecutive log

pub last_seqid-length : (log : List Done) → IsConsecutive log → last_seqid log ≡ length log % 2 ^ 32
last_seqid-length [] h = refl
last_seqid-length (d ∷ log) h = omega (arith, h.0, last_seqid-length log h.1)

-- The slot keeps the reply of the last request.
abbrev pub Keeps : Slot → List Done → Type 0
Keeps slot [] = slot.cached ≡ false
Keeps slot (d ∷ log) = (slot.cached ≡ d.cached) × (slot.reply ≡ (if d.cached then d.reply else []))

pub record IsLogged (slot : Slot) (claims : List ℕ) (log : List Done) : Type 0 where
  pub busy : claims ≡ (if slot.in_flight then next32 slot.seqid ∷ [] else [])
  pub consecutive : IsConsecutive log
  pub last : slot.seqid ≡ last_seqid log
  pub keeps : Keeps slot log

-- All slots are as the log has them.
pub record IsOnce (r : Run) : Type 0 where
  pub logged :
      (j : List ℕ) (k : ℕ) (slot : Slot)
      → slot_at r.mgr j k ≡ some slot
      → IsLogged slot (executing r.claims j k) (executed r.log j k)
