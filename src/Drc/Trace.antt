-- ===== src/Drc/Trace.antt =====
-- Any calls through the cache of src/rpc/drc.cpp.
use lightnfs.Prelude.{
  ℕ, ◌≡◌, inl, inr, refl, ap, ◌∙◌, arith, Option, none, some, List, [], ◌∷◌, if◌then◌else◌,
  get_elem?, Bool-cases,
}
use lightnfs.Maps.{find, erase}
use lightnfs.Drc.Cache.{
  CallKey, key_eq, call_key, Entry, Shard, Config, Drc, Claim, owner, waiting, cached, begin, abort,
  shard_of, in_progress, purge, classify,
}
use lightnfs.Drc.Purge.{erase-Queue}
use lightnfs.Drc.Entries.{write_shard-Queues, entry_of-erase, not_queued, shard_written}
use lightnfs.Drc.Steps.{
  purged, purged-IsExclusive, call-IsExclusive, finished-IsExclusive, owned, still_pending,
}
use lightnfs.Drc.Once.{executing-remove_at, same_entry}
use lightnfs.Drc.Log.{
  Run, Event, remove_at, dropped, step, run, entry_of, executing, last_reply, one_if, IsExclusive,
}

no_entry : {e : Entry} → none ≡ some e → ⊥
no_entry h = cc

dropped-IsExclusive :
    (r : Run) (n : ℕ) (o : Option CallKey)
    → get_elem? r.owners n ≡ o
    → IsExclusive r
    → IsExclusive (dropped n r o)
unfolding dropped abort
dropped-IsExclusive r n none mine h = h
dropped-IsExclusive r n (some k) mine h =
    let i = shard_of k in
    let sh = r.drc.shards i in
    let sh' : Shard = record sh { entries = erase k sh.entries } in
    let busy = owned r n k mine h in
    let ne =
      not_queued k sh.entries sh.completed (still_pending (entry_of r.drc k) busy) (h.queues i) in
    let lookup = λ (j : CallKey). entry_of-erase r.drc k sh' j refl in
    rw busy (record {
      queues =
          write_shard-Queues r.drc i sh' (erase-Queue k sh.entries sh.completed ne (h.queues i))
            h.queues;
      counted = λ j. elim (Bool-cases (key_eq k j)) [
        | inl q ↦
            let before : executing r.owners j ≡ 1 =
              h.counted j
              ∙ ap (λ (o : Option Entry). one_if (in_progress o)) (same_entry r.drc k j q)
              ∙ ap one_if busy in
            let one : one_if (key_eq k j) ≡ 1 = ap one_if q in
            let idle : executing (remove_at r.owners n) j ≡ 0 =
              omega (arith, before, executing-remove_at r.owners n k j mine, one) in
            rw (lookup j, q) idle
        | inr q ↦
            let none_gone : one_if (key_eq k j) ≡ 0 = ap one_if q in
            let same : executing (remove_at r.owners n) j ≡ executing r.owners j =
              omega (arith, executing-remove_at r.owners n k j mine, none_gone) in
            rw (lookup j, q, same) (h.counted j)
      ];
      logged = λ j e found done. elim (Bool-cases (key_eq k j)) [
        | inl q ↦ absurd (no_entry (rw (lookup j, q) at found))
        | inr q ↦ h.logged j e (rw (lookup j, q) at found) done
      ];
    })

step-IsExclusive : (cfg : Config) (r : Run) (e : Event) → IsExclusive r → IsExclusive (step cfg r e)
unfolding step
step-IsExclusive cfg r (Event.call now k) h = call-IsExclusive cfg r now k h
step-IsExclusive cfg r (Event.finish now n reply) h =
    finished-IsExclusive cfg r now n reply (get_elem? r.owners n) refl h
step-IsExclusive cfg r (Event.drop n) h = dropped-IsExclusive r n (get_elem? r.owners n) refl h

pub run-IsExclusive :
    (cfg : Config) (r : Run) (events : List Event) → IsExclusive r → IsExclusive (run cfg r events)
unfolding run
run-IsExclusive cfg r [] h = h
run-IsExclusive cfg r (e ∷ events) h =
    run-IsExclusive cfg (step cfg r e) events (step-IsExclusive cfg r e h)

abbrev pub empty_drc : Drc
empty_drc = record {
  shards = λ i. record { entries = []; completed = []; bytes = 0 };
  inserts = 0;
  replays = 0;
  waits = 0;
  evictions = 0;
}

abbrev pub start : Run
start = record { drc = empty_drc; owners = []; log = [] }

start-IsExclusive : IsExclusive start
unfolding find
start-IsExclusive = record {
  queues = λ i. tt;
  counted = λ k. refl;
  logged = λ k e found done. absurd (no_entry found);
}

-- Whatever calls, retransmissions, replies and drops follow each other from the empty cache, without
-- a flush: never do two calls of one key execute at the same time, and one executes exactly while
-- the key's entry is in progress.
pub run-one_owner :
    (cfg : Config) (events : List Event) (k : CallKey)
    → (let r = run cfg start events in
        executing r.owners k ≡ (if in_progress (entry_of r.drc k) then 1 else 0))
run-one_owner cfg events k = (run-IsExclusive cfg start events start-IsExclusive).counted k

-- What a call is told, beside what executes and what was logged.
abbrev pub Told : Run → CallKey → Claim → Type 0
Told r k owner = executing r.owners k ≡ 0
Told r k waiting = executing r.owners k ≡ 1
Told r k (cached reply) = (executing r.owners k ≡ 0) × (reply ≡ last_reply r.log k)

classify-Told :
    (r : Run) (k : CallKey) (sh : Shard) (o : Option Entry)
    → entry_of r.drc k ≡ o
    → IsExclusive r
    → Told r k (classify r.drc k sh o).0
unfolding classify
classify-Told r k sh none e h = h.counted k ∙ ap (λ (o : Option Entry). one_if (in_progress o)) e
classify-Told r k sh (some x) e h =
    let known = h.counted k ∙ ap (λ (o : Option Entry). one_if (in_progress o)) e in
    elim (Bool-cases x.done) [
      | inl q ↦ rw q ((rw q at known), h.logged k x e q)
      | inr q ↦ rw q (rw q at known)
    ]

-- After any calls, replies and drops from the empty cache, without a flush: a call that is told to
-- execute finds no other call of its key executing; one that is told to wait finds one; and one that
-- is given a reply finds none, and the reply is the last one that a call of its key completed with.
pub begin-Told :
    (cfg : Config) (events : List Event) (now : ℕ) (k : CallKey)
    → (let r = run cfg start events in Told r k (begin cfg now k r.drc).0)
unfolding begin
begin-Told cfg events now k =
    let r = run cfg start events in
    let p = purge cfg now (r.drc.shards (shard_of k)) r.drc.evictions in
    classify-Told (record r { drc = purged cfg now k r.drc }) k p.0 (find k p.0.entries)
      (ap (λ (s : Shard). find k s.entries) (shard_written r.drc (shard_of k) p.0))
      (purged-IsExclusive cfg r now k (run-IsExclusive cfg start events start-IsExclusive))
