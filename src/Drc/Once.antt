-- ===== src/Drc/Once.antt =====
-- Who executes what, through the cache of src/rpc/drc.cpp.
use mathlib.Core.Path.{subst}
use lightnfs.Prelude.{
  ℕ, zero, suc, ◌+◌, ◌≡◌, inl, inr, refl, ap, sym, ◌∙◌, arith, true, Option, none, some, List, [],
  ◌∷◌, get_elem?, Bool-cases,
}
use lightnfs.Maps.{find, put}
use lightnfs.Drc.Cache.{
  CallKey, key_eq, key_eq-eq, call_key, Entry, Shard, Drc, shard_of, in_progress, write_shard,
  new_entry,
}
use lightnfs.Drc.Purge.{Queue, Kept}
use lightnfs.Drc.Entries.{Queues, write_shard-Queues, entry_of-put, not_queued, put-Queue}
use lightnfs.Drc.Log.{Run, remove_at, entry_of, executing, one_if, IsExclusive}

no_entry : {e : Entry} → none ≡ some e → ⊥
no_entry h = cc

pub not_done : {e : Entry} → some new_entry ≡ some e → e.done ≡ true → ⊥
not_done h d = cc

no_key : {k : CallKey} → none ≡ some k → ⊥
no_key h = cc

pub executing-remove_at :
    (keys : List CallKey) (n : ℕ) (k j : CallKey)
    → get_elem? keys n ≡ some k
    → executing keys j ≡ executing (remove_at keys n) j + one_if (key_eq k j)
executing-remove_at [] n k j e = absurd (no_key e)
executing-remove_at (i ∷ keys) zero k j e = let same : i ≡ k = cc in rw (← same) (ground arith)
executing-remove_at (i ∷ keys) (suc n) k j e = ground (arith, executing-remove_at keys n k j e)

-- A purge changes nothing in progress.
Kept-in_progress : (o o' : Option Entry) → Kept o o' → in_progress o' ≡ in_progress o
Kept-in_progress o o' (inl p) = ap in_progress p
Kept-in_progress o o' (inr (e, f, d, g)) = rw (f, g, d)

Kept-some : (o o' : Option Entry) (e : Entry) → Kept o o' → o' ≡ some e → o ≡ some e
Kept-some o o' e (inl p) h = sym p ∙ h
Kept-some o o' e (inr (e', f, d, g)) h = cc

-- Purges keep what was shown.
pub Kept-IsExclusive :
    (r : Run) (d : Drc)
    → Queues d
    → ((j : CallKey) → Kept (entry_of r.drc j) (entry_of d j))
    → IsExclusive r
    → IsExclusive (record r { drc = d })
Kept-IsExclusive r d queues kept h = record {
  queues = queues;
  counted = λ j.
      h.counted j ∙ ap one_if (sym (Kept-in_progress (entry_of r.drc j) (entry_of d j) (kept j)));
  logged = λ j e found done.
      h.logged j e (Kept-some (entry_of r.drc j) (entry_of d j) e (kept j) found) done;
}

pub same_entry : (d : Drc) (k j : CallKey) → key_eq k j ≡ true → entry_of d j ≡ entry_of d k
same_entry d k j q = ap (entry_of d) (sym (key_eq-eq k j q))

-- A new entry, and the call that owns it.
pub inserted :
    (r : Run) (k : CallKey) (sh : Shard)
    → r.drc.shards (shard_of k) ≡ sh
    → find k sh.entries ≡ none
    → IsExclusive r
    → IsExclusive (record r {
      drc = write_shard r.drc (shard_of k) (record sh { entries = put k new_entry sh.entries });
      owners = k ∷ r.owners;
    })
inserted r k sh same missing h =
    let i = shard_of k in
    let sh' : Shard = record sh { entries = put k new_entry sh.entries } in
    let queue = subst (λ (s : Shard). Queue s.entries s.completed) same (h.queues i) in
    let free : entry_of r.drc k ≡ none = ap (λ (s : Shard). find k s.entries) same ∙ missing in
    let lookup = λ (j : CallKey).
      entry_of-put r.drc k new_entry sh' sh.entries j (ap (λ (s : Shard). s.entries) same) refl in
    record {
      queues =
          write_shard-Queues r.drc i sh'
            (put-Queue k new_entry sh.entries sh.completed
              (not_queued k sh.entries sh.completed
                (λ e found. absurd (no_entry (sym missing ∙ found))) queue)
              queue)
            h.queues;
      counted = λ j. elim (Bool-cases (key_eq k j)) [
        | inl q ↦
            let idle : executing r.owners j ≡ 0 =
              h.counted j
              ∙ ap (λ (o : Option Entry). one_if (in_progress o)) (same_entry r.drc k j q ∙ free) in
            rw (lookup j, q, idle)
        | inr q ↦ rw (lookup j, q) (h.counted j)
      ];
      logged = λ j e found done. elim (Bool-cases (key_eq k j)) [
        | inl q ↦
            let new : some new_entry ≡ some e = rw (lookup j, q) at found in
            absurd (not_done new done)
        | inr q ↦ h.logged j e (rw (lookup j, q) at found) done
      ];
    }
