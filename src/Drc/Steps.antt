-- ===== src/Drc/Steps.antt =====
-- The steps of calls through the cache of src/rpc/drc.cpp.
use mathlib.Core.Path.{subst}
use lightnfs.Prelude.{
  ◌%◌, ◌^◌, length, ℕ, ◌+◌, ◌≡◌, inl, inr, refl, ap, sym, ◌∙◌, arith, true, false, Option, none,
  some, List, [], ◌∷◌, ◌++◌, if◌then◌else◌, get_elem?, Bool-cases,
}
use lightnfs.Maps.{find, put, find-put}
use lightnfs.Drc.Cache.{
  CallKey, key_eq, key_eq_refl, call_key, Entry, Shard, Config, Drc, begin, complete, shard_of,
  in_progress, purge, classify, write_shard,
}
use lightnfs.Drc.Purge.{Done, Queue, Kept, purge-Purged}
use lightnfs.Drc.Entries.{
  write_shard-Queues, write_shard-Kept, entry_of-put, not_queued, put-Queue, snoc-Queue,
  write_twice, shard_written,
}
use lightnfs.Drc.Once.{executing-remove_at, inserted, same_entry, Kept-IsExclusive}
use lightnfs.Drc.Log.{
  Run, Event, remove_at, owns, finished, step, entry_of, executing, one_if, IsExclusive,
}

-- `begin`, once its shard is purged.
classified :
    (r : Run) (k : CallKey) (sh : Shard) (o : Option Entry)
    → r.drc.shards (shard_of k) ≡ sh
    → find k sh.entries ≡ o
    → IsExclusive r
    → (let v = classify r.drc k sh o in
        IsExclusive (record r { drc = v.1; owners = if owns v.0 then k ∷ r.owners else r.owners }))
unfolding classify
classified r k sh none same e h =
    let i = inserted r k sh same e h in
    record { queues = i.queues; counted = i.counted; logged = i.logged }
classified r k sh (some e) same found h = elim (Bool-cases e.done) [
  | inl q ↦ rw q (record { queues = h.queues; counted = h.counted; logged = h.logged })
  | inr q ↦ rw q (record { queues = h.queues; counted = h.counted; logged = h.logged })
]

-- The cache that a round of `begin` looks at.
abbrev pub purged : Config → ℕ → CallKey → Drc → Drc
purged cfg now k d =
    let p = purge cfg now (d.shards (shard_of k)) d.evictions in
    record (write_shard d (shard_of k) p.0) { evictions = p.1 }

pub purged-IsExclusive :
    (cfg : Config) (r : Run) (now : ℕ) (k : CallKey)
    → IsExclusive r
    → IsExclusive (record r { drc = purged cfg now k r.drc })
purged-IsExclusive cfg r now k h =
    let i = shard_of k in
    let p = purge cfg now (r.drc.shards i) r.drc.evictions in
    let (queue, kept) = purge-Purged cfg now (r.drc.shards i) r.drc.evictions (h.queues i) in
    Kept-IsExclusive r (purged cfg now k r.drc) (write_shard-Queues r.drc i p.0 queue h.queues)
      (write_shard-Kept r.drc i p.0 kept) h

pub call-IsExclusive :
    (cfg : Config) (r : Run) (now : ℕ) (k : CallKey)
    → IsExclusive r
    → IsExclusive (step cfg r (Event.call now k))
unfolding step begin
call-IsExclusive cfg r now k h =
    let p = purge cfg now (r.drc.shards (shard_of k)) r.drc.evictions in
    classified (record r { drc = purged cfg now k r.drc }) k p.0 (find k p.0.entries)
      (shard_written r.drc (shard_of k) p.0) refl (purged-IsExclusive cfg r now k h)

-- The call at `n` has its entry in progress.
pub owned :
    (r : Run) (n : ℕ) (k : CallKey)
    → get_elem? r.owners n ≡ some k
    → IsExclusive r
    → in_progress (entry_of r.drc k) ≡ true
owned r n k e h = elim (Bool-cases (in_progress (entry_of r.drc k))) [
  | inl q ↦ q
  | inr q ↦
      let idle : executing r.owners k ≡ 0 = h.counted k ∙ ap one_if q in
      let busy = executing-remove_at r.owners n k k e in
      let one : one_if (key_eq k k) ≡ 1 = ap one_if (key_eq_refl k) in
      absurd (omega (arith, idle, busy, one))
]

pub still_pending :
    (o : Option Entry) → in_progress o ≡ true → (e : Entry) → o ≡ some e → e.done ≡ false
still_pending none p e h = cc
still_pending (some o) p e h = let same : o ≡ e = cc in rw (← same) (ground arith)

-- The cache after the entry of a call in progress was done, before the purge.
completed :
    (r : Run) (n : ℕ) (k : CallKey) (e : Entry) (reply : List ℕ) (bytes : ℕ)
    → get_elem? r.owners n ≡ some k
    → e.done ≡ true
    → e.reply ≡ some reply
    → IsExclusive r
    → IsExclusive (record {
      drc = write_shard r.drc (shard_of k) (record {
        entries = put k e (r.drc.shards (shard_of k)).entries;
        completed = (r.drc.shards (shard_of k)).completed ++ k ∷ [];
        bytes = bytes;
      });
      owners = remove_at r.owners n;
      log = record { key = k; bytes = reply } ∷ r.log;
    })
completed r n k e reply bytes mine done kept_reply h =
    let i = shard_of k in
    let sh = r.drc.shards i in
    let sh' : Shard = record {
      entries = put k e sh.entries;
      completed = sh.completed ++ k ∷ [];
      bytes = bytes;
    } in
    let busy = owned r n k mine h in
    let ne =
      not_queued k sh.entries sh.completed (still_pending (entry_of r.drc k) busy) (h.queues i) in
    let now_done : Done (put k e sh.entries) k =
      (e, find-put k k e sh.entries ∙ rw (key_eq_refl k), done) in
    let lookup = λ (j : CallKey). entry_of-put r.drc k e sh' sh.entries j refl refl in
    record {
      queues =
          write_shard-Queues r.drc i sh'
            (snoc-Queue k (put k e sh.entries) sh.completed now_done ne
              (put-Queue k e sh.entries sh.completed ne (h.queues i)))
            h.queues;
      counted = λ j. elim (Bool-cases (key_eq k j)) [
        | inl q ↦
            let before : executing r.owners j ≡ 1 =
              h.counted j
              ∙ ap (λ (o : Option Entry). one_if (in_progress o)) (same_entry r.drc k j q)
              ∙ ap one_if busy in
            let one : one_if (key_eq k j) ≡ 1 = ap one_if q in
            let idle : executing (remove_at r.owners n) j ≡ 0 =
              omega (arith, before, executing-remove_at r.owners n k j mine, one) in
            rw (lookup j, q, done) idle
        | inr q ↦
            let none_gone : one_if (key_eq k j) ≡ 0 = ap one_if q in
            let same : executing (remove_at r.owners n) j ≡ executing r.owners j =
              omega (arith, executing-remove_at r.owners n k j mine, none_gone) in
            rw (lookup j, q, same) (h.counted j)
      ];
      logged = λ j e' found done'. elim (Bool-cases (key_eq k j)) [
        | inl q ↦
            let new : some e ≡ some e' = rw (lookup j, q) at found in
            let same : e ≡ e' = cc in rw (← same, q) kept_reply
        | inr q ↦ rw q (h.logged j e' (rw (lookup j, q) at found) done')
      ];
    }

pub finished-IsExclusive :
    (cfg : Config) (r : Run) (now n : ℕ) (reply : List ℕ) (o : Option CallKey)
    → get_elem? r.owners n ≡ o
    → IsExclusive r
    → IsExclusive (finished cfg now n reply r o)
unfolding finished complete
finished-IsExclusive cfg r now n reply none mine h = h
finished-IsExclusive cfg r now n reply (some k) mine h =
    let i = shard_of k in
    let sh = r.drc.shards i in
    let e : Entry = record { done = true; reply = some reply; done_at = now } in
    let sh' : Shard = record {
      entries = put k e sh.entries;
      completed = sh.completed ++ k ∷ [];
      bytes = (sh.bytes + length reply) % 2 ^ 64;
    } in
    let after = completed r n k e reply sh'.bytes mine refl refl h in
    let p = purge cfg now sh' r.drc.evictions in
    let middle = write_shard r.drc i sh' in
    let done_run : Run = record {
      drc = middle;
      owners = remove_at r.owners n;
      log = record { key = k; bytes = reply } ∷ r.log;
    } in
    let queue =
      subst (λ (s : Shard). Queue s.entries s.completed) (shard_written r.drc i sh')
        (after.queues i) in
    let (queue', kept) = purge-Purged cfg now sh' r.drc.evictions queue in
    let kept' =
      subst (λ (s : Shard). (j : CallKey) → Kept (find j s.entries) (find j p.0.entries))
        (sym (shard_written r.drc i sh')) kept in
    rw (owned r n k mine h) (
      Kept-IsExclusive done_run (record (write_shard r.drc i p.0) { evictions = p.1 })
        (write_shard-Queues r.drc i p.0 queue' h.queues)
        (λ j.
          subst (Kept (entry_of middle j)) (write_twice r.drc i sh' p.0 j)
            (write_shard-Kept middle i p.0 kept' j))
        after)
