-- ===== src/Drc/Purge.antt =====
-- What `purge` of src/rpc/drc.cpp takes out of a shard.
use mathlib.Core.Path.{subst}
use lightnfs.Prelude.{
  if_case, ℕ, ◌≡◌, ◌⊎◌, inl, inr, refl, ap, sym, ◌∙◌, ◌-◌, ◌/◌, true, false, ◌&&◌, not, Option,
  none, some, List, [], ◌∷◌, ltb, leb, if◌then◌else◌, All, Bool-cases,
}
use lightnfs.Maps.{find, erase, find-erase}
use lightnfs.Drc.Cache.{
  CallKey, key_eq, key_eq-eq, call_key, Entry, Shard, Config, evict, purge_loop, purge, next64,
}

abbrev pub Done : List (CallKey × Entry) → CallKey → Type 0
Done entries k = (e : Entry) × (find k entries ≡ some e) × (e.done ≡ true)

-- The completed keys are of done entries, and no key stands twice.
abbrev pub Queue : List (CallKey × Entry) → List CallKey → Type 0
Queue entries [] = Unit {0}
Queue entries (k ∷ keys) =
    Done entries k × All (λ (j : CallKey). key_eq k j ≡ false) keys × Queue entries keys

-- A key finds what it found, or its done entry is gone.
abbrev pub Kept : Option Entry → Option Entry → Type 0
Kept o o' = (o' ≡ o) ⊎ ((e : Entry) × (o ≡ some e) × (e.done ≡ true) × (o' ≡ none))

Kept-trans : (a b c : Option Entry) → Kept a b → Kept b c → Kept a c
Kept-trans a b c (inl p) (inl q) = inl (q ∙ p)
Kept-trans a b c (inl p) (inr (e, f, d, g)) = inr (e, sym p ∙ f, d, g)
Kept-trans a b c (inr (e, f, d, g)) (inl q) = inr (e, f, d, q ∙ g)
Kept-trans a b c (inr (e, f, d, g)) (inr (e', f', d', g')) = inr (e, f, d, g')

pub erase-Queue :
    (k : CallKey) (entries : List (CallKey × Entry)) (keys : List CallKey)
    → All (λ (j : CallKey). key_eq k j ≡ false) keys
    → Queue entries keys
    → Queue (erase k entries) keys
erase-Queue k entries [] ne q = tt
erase-Queue k entries (j ∷ keys) ne q =
    let (e, there, done) = q.0 in
    ((e, rw (find-erase j k entries, ne.0) there, done), q.1, erase-Queue k entries keys ne.1 q.2)

erase-Kept :
    (k : CallKey) (entries : List (CallKey × Entry))
    → Done entries k
    → (j : CallKey) → Kept (find j entries) (find j (erase k entries))
erase-Kept k entries (e, there, done) j = elim (Bool-cases (key_eq k j)) [
  | inl q ↦
      let found = ap (λ (x : CallKey). find x entries) (sym (key_eq-eq k j q)) ∙ there in
      inr (e, found, done, rw (find-erase j k entries, q))
  | inr q ↦ inl (rw (find-erase j k entries, q))
]

-- What a purge leaves of a shard.
abbrev pub Purged : Shard → Shard × ℕ → Type 0
Purged sh r =
    Queue r.0.entries r.0.completed
    × ((j : CallKey) → Kept (find j sh.entries) (find j r.0.entries))

-- The round of the loop at a key whose entry is there.
purge_loop-found :
    (cfg : Config) (now : ℕ) (k : CallKey) (keys : List CallKey) (sh : Shard) (evictions : ℕ)
    (e : Entry)
    → find k sh.entries ≡ some e
    → purge_loop cfg now (k ∷ keys) sh evictions ≡ (
        if not (leb cfg.ttl (now - e.done_at)) && not (ltb (cfg.max_memory / 16) sh.bytes)
        then (record sh { completed = k ∷ keys }, evictions)
        else purge_loop cfg now keys (evict k e sh) (next64 evictions))
unfolding purge_loop
purge_loop-found cfg now k keys sh evictions e there = rw (purge_loop, there)

purge_loop-Purged :
    (cfg : Config) (now : ℕ) (keys : List CallKey) (sh : Shard) (evictions : ℕ)
    → Queue sh.entries keys
    → Purged sh (purge_loop cfg now keys sh evictions)
unfolding purge_loop evict
purge_loop-Purged cfg now [] sh evictions q = (tt, λ j. inl refl)
purge_loop-Purged cfg now (k ∷ keys) sh evictions q =
    let (e, there, done) = q.0 in
    let (queue, kept) =
      purge_loop-Purged cfg now keys (evict k e sh) (next64 evictions)
        (erase-Queue k sh.entries keys q.1 q.2) in
    subst (Purged sh) (sym (purge_loop-found cfg now k keys sh evictions e there)) (
      if_case (Purged sh)
        (not (leb cfg.ttl (now - e.done_at)) && not (ltb (cfg.max_memory / 16) sh.bytes))
        (q, λ j. inl refl)
        (
          queue,
          λ j.
              Kept-trans (find j sh.entries) (find j (erase k sh.entries))
                (find j (purge_loop cfg now keys (evict k e sh) (next64 evictions)).0.entries)
                (erase-Kept k sh.entries q.0 j) (kept j),
        ))

pub purge-Purged :
    (cfg : Config) (now : ℕ) (sh : Shard) (evictions : ℕ)
    → Queue sh.entries sh.completed
    → Purged sh (purge cfg now sh evictions)
unfolding purge
purge-Purged cfg now sh evictions q = purge_loop-Purged cfg now sh.completed sh evictions q
