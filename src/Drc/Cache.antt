-- ===== src/Drc/Cache.antt =====
-- `Drc` of src/rpc/drc.cpp. Times are milliseconds of the steady clock, which does not go back.
use lightnfs.Prelude.{
  ℕ, zero, suc, ◌+◌, ◌-◌, ◌/◌, ◌%◌, ◌^◌, ◌≡◌, arith, Bool, true, false, ◌&&◌, not, Option, none,
  some, List, [], ◌∷◌, ◌++◌, ltb, leb, ◌==◌, if◌then◌else◌, length, replicate, bytes_eq,
  bytes_eq-eq, bytes_eq_refl,
}
use lightnfs.Maps.{Key, find, put, erase}
use lightnfs.Rpc.Call.{fnv, fnv_basis}

pub record CallKey : Type 0 where
  pub peer_addr : List ℕ
  pub xid : ℕ
  pub prog : ℕ
  pub vers : ℕ
  pub proc : ℕ
  pub args_hash : ℕ

-- The address of a peer: of IPv4, of IPv6, or of another family.
pub data Peer : Type 0 where
  inet inet6 : List ℕ → Peer
  other_family : Peer

-- The part of `Key::make` that is not a copy.
abbrev pub peer_bytes : Peer → List ℕ
peer_bytes (Peer.inet a) = replicate 10 0 ++ 255 ∷ 255 ∷ a
peer_bytes (Peer.inet6 a) = a
peer_bytes Peer.other_family = replicate 16 0

unfoldable pub key_eq : CallKey → CallKey → Bool
key_eq a b =
    bytes_eq a.peer_addr b.peer_addr
    && a.xid == b.xid
    && a.prog == b.prog
    && a.vers == b.vers
    && a.proc == b.proc
    && a.args_hash == b.args_hash

pub key_eq-eq : (a b : CallKey) → key_eq a b ≡ true → a ≡ b
unfolding key_eq
key_eq-eq a b h =
    let peers : a.peer_addr ≡ b.peer_addr = bytes_eq-eq a.peer_addr b.peer_addr (ground arith) in
    let xids : a.xid ≡ b.xid = ground arith in
    let progs : a.prog ≡ b.prog = ground arith in
    let verss : a.vers ≡ b.vers = ground arith in
    let procs : a.proc ≡ b.proc = ground arith in
    let hashes : a.args_hash ≡ b.args_hash = ground arith in cc

pub key_eq_refl : (a : CallKey) → key_eq a a ≡ true
unfolding key_eq
key_eq_refl a = ground (arith, bytes_eq_refl a.peer_addr)

instance abbrev pub call_key : Key CallKey
call_key = record { beq = key_eq; beq-eq = key_eq-eq; beq_refl = key_eq_refl }

pub record Entry : Type 0 where
  pub done : Bool
  pub reply : Option (List ℕ)
  pub done_at : ℕ

-- `count` is the number of entries, and is not kept here.
pub record Shard : Type 0 where
  pub entries : List (CallKey × Entry)
  pub completed : List CallKey
  pub bytes : ℕ

pub record Config : Type 0 where
  pub ttl : ℕ
  pub max_memory : ℕ

pub record Drc : Type 0 where
  pub shards : ℕ → Shard
  pub inserts : ℕ
  pub replays : ℕ
  pub waits : ℕ
  pub evictions : ℕ

abbrev pub next64 : ℕ → ℕ
next64 n = (n + 1) % 2 ^ 64

-- `KeyHash`, whose mixing step is that of FNV-1a on whole words.
unfoldable pub key_hash : CallKey → ℕ
unfolding fnv
key_hash k = fnv fnv_basis (k.peer_addr ++ (k.xid ∷ k.prog ∷ k.vers ∷ k.proc ∷ k.args_hash ∷ []))

unfoldable pub shard_of : CallKey → ℕ
unfolding key_hash
shard_of k = key_hash k % 16

abbrev pub reply_size : Option (List ℕ) → ℕ
reply_size none = 0
reply_size (some bytes) = length bytes

-- One entry leaves the cache.
unfoldable pub evict : CallKey → Entry → Shard → Shard
unfolding erase
evict k e sh = record sh {
  entries = erase k sh.entries;
  bytes = (sh.bytes + (2 ^ 64 - reply_size e.reply % 2 ^ 64)) % 2 ^ 64;
}

-- The loop of `purge` over the completed keys, oldest first, with the count of evictions.
unfoldable pub purge_loop : Config → ℕ → List CallKey → Shard → ℕ → Shard × ℕ
unfolding find evict
purge_loop cfg now [] sh evictions = (record sh { completed = [] }, evictions)
purge_loop cfg now (k ∷ rest) sh evictions = elim (find k sh.entries) [
  | none ↦ purge_loop cfg now rest sh evictions
  | some e ↦
      let next = purge_loop cfg now rest (evict k e sh) (next64 evictions) in
      if not (leb cfg.ttl (now - e.done_at)) && not (ltb (cfg.max_memory / 16) sh.bytes)
      then (record sh { completed = k ∷ rest }, evictions)
      else next
]

unfoldable pub purge : Config → ℕ → Shard → ℕ → Shard × ℕ
unfolding purge_loop
purge cfg now sh evictions = purge_loop cfg now sh.completed sh evictions

-- The caller executes the call, retransmits a reply, or waits.
pub data Claim : Type 0 where
  owner waiting : Claim
  cached : Option (List ℕ) → Claim

abbrev pub write_shard : Drc → ℕ → Shard → Drc
write_shard d i sh = record d { shards = λ j. if j == i then sh else d.shards j }

abbrev pub new_entry : Entry
new_entry = record { done = false; reply = none; done_at = 0 }

-- The rest of a round, once the shard is purged.
unfoldable pub classify : Drc → CallKey → Shard → Option Entry → Claim × Drc
unfolding put
classify d k sh none = (
  owner,
  record (write_shard d (shard_of k) (record sh { entries = put k new_entry sh.entries })) {
    inserts = next64 d.inserts;
  },
)
classify d k sh (some e) =
    if e.done
    then (cached e.reply, record d { replays = next64 d.replays })
    else (waiting, record d { waits = next64 d.waits })

-- One round of the loop of `begin`. A call that waits runs it again when it is woken.
unfoldable pub begin : Config → ℕ → CallKey → Drc → Claim × Drc
unfolding purge classify shard_of find
begin cfg now k d =
    let i = shard_of k in
    let p = purge cfg now (d.shards i) d.evictions in
    classify (record (write_shard d i p.0) { evictions = p.1 }) k p.0 (find k p.0.entries)

abbrev pub in_progress : Option Entry → Bool
in_progress none = false
in_progress (some e) = not e.done

unfoldable pub complete : Config → ℕ → CallKey → List ℕ → Drc → Drc
unfolding purge shard_of find put
complete cfg now k reply d =
    let i = shard_of k in
    let sh = d.shards i in
    let e : Entry = record { done = true; reply = some reply; done_at = now } in
    let sh' : Shard = record {
      entries = put k e sh.entries;
      completed = sh.completed ++ k ∷ [];
      bytes = (sh.bytes + length reply) % 2 ^ 64;
    } in
    let p = purge cfg now sh' d.evictions in
    if in_progress (find k sh.entries) then record (write_shard d i p.0) { evictions = p.1 } else d

unfoldable pub abort : CallKey → Drc → Drc
unfolding shard_of find erase
abort k d =
    let i = shard_of k in
    let sh = d.shards i in
    if in_progress (find k sh.entries)
    then write_shard d i (record sh { entries = erase k sh.entries })
    else d

-- The entries of the first `n` shards.
unfoldable pub entries_in : ℕ → Drc → ℕ
entries_in zero d = 0
entries_in (suc n) d = (entries_in n d + length (d.shards n).entries) % 2 ^ 64

-- Every shard is emptied; the number of entries that are dropped.
unfoldable pub flush : Drc → ℕ × Drc
unfolding entries_in
flush d =
    (entries_in 16 d, record d { shards = λ j. record { entries = []; completed = []; bytes = 0 } })
