-- ===== src/Drc/Entries.antt =====
-- What the keys find in the cache of src/rpc/drc.cpp after one shard was written.
use lightnfs.Prelude.{
  ℕ, ◌≡◌, inl, inr, ap, sym, ◌∙◌, arith, true, false, none, some, List, [], ◌∷◌, ◌++◌, ◌==◌,
  if◌then◌else◌, All, Bool-cases, if_case, ==_refl,
}
use lightnfs.Maps.{find, put, erase, find-put, find-erase}
use lightnfs.Drc.Cache.{
  CallKey, key_eq, key_eq-eq, key_eq_refl, call_key, Entry, Shard, Drc, shard_of, write_shard,
}
use lightnfs.Drc.Purge.{Done, Queue, Kept}
use lightnfs.Drc.Log.{entry_of}

-- The cache after one shard was written: what a key finds.
entry_of-write :
    (d : Drc) (i : ℕ) (sh : Shard) (j : CallKey)
    → entry_of (write_shard d i sh) j
      ≡ (if shard_of j == i then find j sh.entries else entry_of d j)
entry_of-write d i sh j = elim (Bool-cases (shard_of j == i)) [ inl q ↦ rw q | inr q ↦ rw q ]

abbrev pub Queues : Drc → Type 0
Queues d = (i : ℕ) → Queue (d.shards i).entries (d.shards i).completed

pub write_shard-Queues :
    (d : Drc) (i : ℕ) (sh : Shard)
    → Queue sh.entries sh.completed
    → Queues d
    → Queues (write_shard d i sh)
write_shard-Queues d i sh q h a =
    if_case (λ (s : Shard). Queue s.entries s.completed) (a == i) q (h a)

-- A shard written with what a purge left of it.
pub write_shard-Kept :
    (d : Drc) (i : ℕ) (sh : Shard)
    → ((j : CallKey) → Kept (find j (d.shards i).entries) (find j sh.entries))
    → (j : CallKey) → Kept (entry_of d j) (entry_of (write_shard d i sh) j)
write_shard-Kept d i sh kept j = elim (Bool-cases (shard_of j == i)) [
  | inl q ↦
      let here : shard_of j ≡ i = ground arith in
      let found : entry_of d j ≡ find j (d.shards i).entries =
        ap (λ (a : ℕ). find j (d.shards a).entries) here in
      rw (entry_of-write d i sh j, q, found) (kept j)
  | inr q ↦ inl (entry_of-write d i sh j ∙ rw q)
]

-- The shard of a key, with its entry written or erased.
pub entry_of-put :
    (d : Drc) (k : CallKey) (e : Entry) (sh : Shard) (entries : List (CallKey × Entry))
    (j : CallKey)
    → (d.shards (shard_of k)).entries ≡ entries
    → sh.entries ≡ put k e entries
    → entry_of (write_shard d (shard_of k) sh) j ≡ (if key_eq k j then some e else entry_of d j)
entry_of-put d k e sh entries j same written =
    entry_of-write d (shard_of k) sh j ∙ elim (Bool-cases (key_eq k j)) [
      | inl q ↦
          let here : shard_of j ≡ shard_of k = ap shard_of (sym (key_eq-eq k j q)) in
          rw (written, find-put j k e entries, q, here, ==_refl (shard_of k))
      | inr q ↦ elim (Bool-cases (shard_of j == shard_of k)) [
        | inl b ↦
            let here : shard_of j ≡ shard_of k = ground arith in
            rw (written, find-put j k e entries, q, b)
              (ap (find j) (sym same) ∙ ap (λ (a : ℕ). find j (d.shards a).entries) (sym here))
        | inr b ↦ rw (q, b)
      ]
    ]

pub entry_of-erase :
    (d : Drc) (k : CallKey) (sh : Shard) (j : CallKey)
    → sh.entries ≡ erase k (d.shards (shard_of k)).entries
    → entry_of (write_shard d (shard_of k) sh) j ≡ (if key_eq k j then none else entry_of d j)
entry_of-erase d k sh j written =
    entry_of-write d (shard_of k) sh j ∙ elim (Bool-cases (key_eq k j)) [
      | inl q ↦
          let here : shard_of j ≡ shard_of k = ap shard_of (sym (key_eq-eq k j q)) in
          rw
            (written, find-erase j k (d.shards (shard_of k)).entries, q, here, ==_refl (shard_of k))
      | inr q ↦ elim (Bool-cases (shard_of j == shard_of k)) [
        | inl b ↦
            let here : shard_of j ≡ shard_of k = ground arith in
            rw (written, find-erase j k (d.shards (shard_of k)).entries, q, b)
              (ap (λ (a : ℕ). find j (d.shards a).entries) (sym here))
        | inr b ↦ rw (q, b)
      ]
    ]

-- A key whose entry is not done stands in no queue.
pub not_queued :
    (k : CallKey) (entries : List (CallKey × Entry)) (keys : List CallKey)
    → ((e : Entry) → find k entries ≡ some e → e.done ≡ false)
    → Queue entries keys
    → All (λ (j : CallKey). key_eq k j ≡ false) keys
not_queued k entries [] pending q = tt
not_queued k entries (j ∷ keys) pending q = (
  elim (Bool-cases (key_eq k j)) [
    | inl same ↦
        let (e, there, done) = q.0 in
        let found = ap (λ (x : CallKey). find x entries) (key_eq-eq k j same) ∙ there in
        cc (pending e found, done)
    | inr other ↦ other
  ],
  not_queued k entries keys pending q.2,
)

pub put-Queue :
    (k : CallKey) (e : Entry) (entries : List (CallKey × Entry)) (keys : List CallKey)
    → All (λ (j : CallKey). key_eq k j ≡ false) keys
    → Queue entries keys
    → Queue (put k e entries) keys
put-Queue k e entries [] ne q = tt
put-Queue k e entries (j ∷ keys) ne q =
    let (old, there, done) = q.0 in
    ((old, rw (find-put j k e entries, ne.0) there, done), q.1, put-Queue k e entries keys ne.1 q.2)

key_eq-false : (k j : CallKey) → key_eq k j ≡ false → key_eq j k ≡ false
key_eq-false k j h = elim (Bool-cases (key_eq j k)) [
  | inl q ↦
      let same : key_eq k j ≡ true =
        ap (λ (x : CallKey). key_eq k x) (key_eq-eq j k q) ∙ key_eq_refl k in
      cc
  | inr q ↦ q
]

All-snoc :
    (j : CallKey) (keys : List CallKey) (k : CallKey)
    → All (λ (x : CallKey). key_eq j x ≡ false) keys
    → key_eq j k ≡ false
    → All (λ (x : CallKey). key_eq j x ≡ false) (keys ++ k ∷ [])
All-snoc j [] k h e = (e, tt)
All-snoc j (x ∷ keys) k h e = (h.0, All-snoc j keys k h.1 e)

-- A key is queued last.
pub snoc-Queue :
    (k : CallKey) (entries : List (CallKey × Entry)) (keys : List CallKey)
    → Done entries k
    → All (λ (j : CallKey). key_eq k j ≡ false) keys
    → Queue entries keys
    → Queue entries (keys ++ k ∷ [])
snoc-Queue k entries [] done ne q = (done, tt, tt)
snoc-Queue k entries (j ∷ keys) done ne q =
    (q.0, All-snoc j keys k q.1 (key_eq-false k j ne.0), snoc-Queue k entries keys done ne.1 q.2)

-- Of two writes of one shard, the second counts.
pub write_twice :
    (d : Drc) (i : ℕ) (a b : Shard) (j : CallKey)
    → entry_of (write_shard (write_shard d i a) i b) j ≡ entry_of (write_shard d i b) j
write_twice d i a b j =
    entry_of-write (write_shard d i a) i b j ∙ elim (Bool-cases (shard_of j == i)) [
      | inl q ↦ rw (entry_of-write d i b j, q)
      | inr q ↦ rw (entry_of-write d i b j, q)
    ]

pub shard_written : (d : Drc) (i : ℕ) (sh : Shard) → (write_shard d i sh).shards i ≡ sh
shard_written d i sh = rw (==_refl i)
