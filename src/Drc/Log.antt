-- ===== src/Drc/Log.antt =====
-- The calls that go through the cache of src/rpc/drc.cpp, beside those that execute and a log of the
-- replies. As in src/nfsv3/engine.cpp, a call that owns its entry ends by `complete` or by `abort`.
use lightnfs.Prelude.{
  ℕ, zero, suc, ◌≡◌, Bool, true, false, Option, none, some, List, [], ◌∷◌, if◌then◌else◌, get_elem?,
}
use lightnfs.Maps.{find}
use lightnfs.Drc.Cache.{
  CallKey, key_eq, call_key, Entry, Config, Drc, Claim, owner, waiting, cached, begin, complete,
  abort, shard_of, in_progress,
}
use lightnfs.Drc.Purge.{Queue}

pub record Reply : Type 0 where
  pub key : CallKey
  pub bytes : List ℕ

-- `log` has the replies of the calls that completed, newest first.
pub record Run : Type 0 where
  pub drc : Drc
  pub owners : List CallKey
  pub log : List Reply

-- `finish` and `drop` name a call by its place among those that execute.
pub data Event : Type 0 where
  call : ℕ → CallKey → Event
  finish : ℕ → ℕ → List ℕ → Event
  drop : ℕ → Event

abbrev pub remove_at : List CallKey → ℕ → List CallKey
remove_at [] n = []
remove_at (k ∷ keys) zero = keys
remove_at (k ∷ keys) (suc n) = k ∷ remove_at keys n

abbrev pub owns : Claim → Bool
owns owner = true
owns waiting = false
owns (cached reply) = false

unfoldable pub finished : Config → ℕ → ℕ → List ℕ → Run → Option CallKey → Run
finished cfg now n reply r none = r
finished cfg now n reply r (some k) = record {
  drc = complete cfg now k reply r.drc;
  owners = remove_at r.owners n;
  log = record { key = k; bytes = reply } ∷ r.log;
}

unfoldable pub dropped : ℕ → Run → Option CallKey → Run
dropped n r none = r
dropped n r (some k) = record r { drc = abort k r.drc; owners = remove_at r.owners n }

unfoldable pub step : Config → Run → Event → Run
unfolding finished dropped
step cfg r (call now k) =
    let v = begin cfg now k r.drc in
    record r { drc = v.1; owners = if owns v.0 then k ∷ r.owners else r.owners }
step cfg r (finish now n reply) = finished cfg now n reply r (get_elem? r.owners n)
step cfg r (drop n) = dropped n r (get_elem? r.owners n)

unfoldable pub run : Config → Run → List Event → Run
unfolding step
run cfg r [] = r
run cfg r (e ∷ events) = run cfg (step cfg r e) events

abbrev pub entry_of : Drc → CallKey → Option Entry
entry_of d k = find k (d.shards (shard_of k)).entries

-- How many calls of a key execute.
abbrev pub executing : List CallKey → CallKey → ℕ
executing [] k = 0
executing (j ∷ keys) k = if key_eq j k then suc (executing keys k) else executing keys k

-- The reply that was logged last for a key.
abbrev pub last_reply : List Reply → CallKey → Option (List ℕ)
last_reply [] k = none
last_reply (r ∷ log) k = if key_eq r.key k then some r.bytes else last_reply log k

abbrev pub one_if : Bool → ℕ
one_if b = if b then 1 else 0

-- One call executes for a key in progress and none for any other, and a done entry has the reply
-- logged last.
pub record IsExclusive (r : Run) : Type 0 where
  pub queues : (i : ℕ) → Queue (r.drc.shards i).entries (r.drc.shards i).completed
  pub counted : (k : CallKey) → executing r.owners k ≡ one_if (in_progress (entry_of r.drc k))
  pub logged :
      (k : CallKey) (e : Entry)
      → entry_of r.drc k ≡ some e
      → e.done ≡ true
      → e.reply ≡ last_reply r.log k
