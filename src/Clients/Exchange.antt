-- ===== src/Clients/Exchange.antt =====
-- EXCHANGE_ID: `exchange_id` of src/state/state_mgr.cpp, with `find_client_sync` and
-- `unpersist_client`. It holds the mutex of the owner's shard.
use lightnfs.Prelude.{
  ℕ, ◌+◌, ◌*◌, ◌/◌, ◌%◌, ◌^◌, Bool, true, false, ◌&&◌, ◌||◌, not, Option, none, some, List, [], ◌∷◌,
  leb, ◌==◌, if◌then◌else◌, bytes_eq,
}
use lightnfs.Maps.{bytes, number, find, put, erase}
use lightnfs.Nfs4.Status.{Status}
use lightnfs.Grace.Windows.{is_nil}
use lightnfs.Clients.Types.{OwnerSlot, Stable, Registry}
use lightnfs.Sessions.Types.{Client, StateMgr, incr64, decr64, next32}
use lightnfs.Sessions.Sequence.{write_client, arm_lease_check, renew}
use lightnfs.Opens.Unlink.{store}

pub record ExchangeResult : Type 0 where
  pub status : Status
  pub clientid : ℕ
  pub sequenceid : ℕ
  pub confirmed_r : Bool

abbrev pub exchange_refused : Status → ExchangeResult
exchange_refused s = record { status = s; clientid = 0; sequenceid = 1; confirmed_r = false }

unfoldable pub find_client : StateMgr → ℕ → Option ℕ
unfolding find
find_client m clientid =
    if clientid / 2 ^ 32 == m.cfg.boot_epoch then find clientid m.registry.client_idx else none

abbrev pub write_registry : StateMgr → Registry → StateMgr
write_registry m g = record m { registry = g }

abbrev pub set_slot : StateMgr → List ℕ → OwnerSlot → StateMgr
set_slot m owner slot =
    write_registry m (record m.registry { by_owner = put owner slot m.registry.by_owner })

abbrev pub drop_slot : StateMgr → List ℕ → StateMgr
drop_slot m owner =
    write_registry m (record m.registry { by_owner = erase owner m.registry.by_owner })

abbrev pub no_slot : OwnerSlot
no_slot = record { confirmed = none; unconfirmed = none }

abbrev pub slot_or_new : Option OwnerSlot → OwnerSlot
slot_or_new none = no_slot
slot_or_new (some slot) = slot

abbrev pub is_none {ℓ} : {A : Type ℓ} → Option A → Bool
is_none none = true
is_none (some a) = false

-- `by_id`, the index and the count lose the record.
unfoldable pub unregister : StateMgr → ℕ → StateMgr
unfolding erase
unregister m clientid = write_registry m (record m.registry {
  by_id = erase clientid m.registry.by_id;
  client_idx = erase clientid m.registry.client_idx;
  client_count = decr64 m.registry.client_count;
})

abbrev pub delist_all : List (ℕ × ℕ) → List ℕ → List Stable → List Stable
delist_all [] owner calls = calls
delist_all ((fsid, n) ∷ counts) owner calls =
    delist_all counts owner (Stable.delist fsid owner ∷ calls)

unfoldable pub unpersist_client : StateMgr → ℕ → StateMgr
unpersist_client m a =
    let c = m.clients a in
    if m.cfg.per_fsid_reclaim
    then write_client
        (write_registry m
          (record m.registry { stable = delist_all c.fs_states c.owner_id m.registry.stable }))
        a (record c { fs_states = [] })
    else store m (Stable.delist 0 c.owner_id)

-- With EXCHGID4_FLAG_UPD_CONFIRMED_REC_A.
unfoldable pub update_found : StateMgr → List ℕ → List ℕ → ℕ → Option ℕ → ExchangeResult × StateMgr
unfolding renew
update_found m verifier principal now none = (exchange_refused Status.noent, m)
update_found m verifier principal now (some a) =
    let c = m.clients a in
    if not (bytes_eq c.verifier verifier)
    then (exchange_refused Status.not_same, m)
    else if not (bytes_eq c.principal principal)
    then (exchange_refused Status.perm, m)
    else (
      record {
        status = Status.ok;
        clientid = c.clientid;
        sequenceid = c.cs_sequence;
        confirmed_r = true;
      },
      renew m a now,
    )

unfoldable pub exchange_update :
    StateMgr → List ℕ → List ℕ → List ℕ → ℕ → OwnerSlot → ExchangeResult × StateMgr
unfolding update_found put erase
exchange_update m owner verifier principal now slot =
    let (out, m') = update_found (set_slot m owner slot) verifier principal now slot.confirmed in
    (out, if is_none slot.confirmed && is_none slot.unconfirmed then drop_slot m' owner else m')

abbrev pub new_client : List ℕ → List ℕ → List ℕ → ℕ → Client
new_client owner principal verifier clientid = record {
  clientid = clientid;
  owner_id = owner;
  principal = principal;
  confirmed = false;
  verifier = verifier;
  cs_sequence = 1;
  cs_cached_reply = [];
  sessions = [];
  reclaim_complete = false;
  persisted = false;
  expired = false;
  courtesy = false;
  courtesy_since = 0;
  lease_expiry = 0;
  lease_heap_deadline = none;
  delegs = 0;
  states = [];
  fs_states = [];
  lease_moved_until = 0;
}

-- The epoch in the high half, a counter in the low one.
unfoldable pub next_clientid : StateMgr → ℕ
next_clientid m = m.cfg.boot_epoch * 2 ^ 32 % 2 ^ 64 + m.registry.next_client

-- A fresh record, in the slot's unconfirmed place.
unfoldable pub enroll :
    StateMgr → List ℕ → List ℕ → List ℕ → ℕ → OwnerSlot → ExchangeResult × StateMgr
unfolding next_clientid renew put arm_lease_check
enroll m owner verifier principal now slot =
    let a = m.registry.next_rec in
    let id = next_clientid m in
    let m1 = write_client m a (new_client owner principal verifier id) in
    let m2 = renew m1 a now in
    let m3 = write_registry m2 (record m2.registry {
      by_owner = put owner (record slot { unconfirmed = some a }) m2.registry.by_owner;
      by_id = put id a m2.registry.by_id;
      client_idx = put id a m2.registry.client_idx;
      next_client = next32 m2.registry.next_client;
      next_rec = a + 1;
      client_count = incr64 m2.registry.client_count;
    }) in
    (
      record { status = Status.ok; clientid = id; sequenceid = 1; confirmed_r = false },
      arm_lease_check m3 a (now + m.cfg.lease_seconds),
    )

-- The slot's unconfirmed record gives way.
unfoldable pub replace_unconfirmed : StateMgr → List ℕ → OwnerSlot → Option ℕ → StateMgr
unfolding unregister put
replace_unconfirmed m owner slot none = set_slot m owner slot
replace_unconfirmed m owner slot (some u) =
    set_slot (unregister m (m.clients u).clientid) owner (record slot { unconfirmed = none })

unfoldable pub at_cap : StateMgr → Bool
at_cap m = not (m.cfg.max_clients == 0) && leb m.cfg.max_clients m.registry.client_count

-- A registration, when the confirmed record stays or is gone.
unfoldable pub exchange_new :
    StateMgr → List ℕ → List ℕ → List ℕ → ℕ → OwnerSlot → ExchangeResult × StateMgr
unfolding replace_unconfirmed at_cap erase enroll
exchange_new m owner verifier principal now slot =
    let m' = replace_unconfirmed m owner slot slot.unconfirmed in
    let slot' = record slot { unconfirmed = none } in
    if at_cap m'
    then (
      exchange_refused Status.resource,
      if is_none slot.confirmed then drop_slot m' owner else m',
    )
    else enroll m' owner verifier principal now slot'

abbrev pub has_state : Client → Bool
has_state c = not (is_nil c.sessions) || not (is_nil c.states)

unfoldable pub exchange_confirmed :
    StateMgr → List ℕ → List ℕ → List ℕ → ℕ → OwnerSlot → Option ℕ → ExchangeResult × StateMgr
unfolding put unpersist_client unregister renew exchange_new
exchange_confirmed m owner verifier principal now slot none =
    exchange_new m owner verifier principal now slot
exchange_confirmed m owner verifier principal now slot (some a) =
    let c = m.clients a in
    if not (bytes_eq c.principal principal)
    then (if has_state c
        then (exchange_refused Status.clid_inuse, m)
        else exchange_new (unregister (unpersist_client m a) c.clientid) owner verifier principal
            now (record slot { confirmed = none }))
    else if bytes_eq c.verifier verifier
    then (
      record {
        status = Status.ok;
        clientid = c.clientid;
        sequenceid = c.cs_sequence;
        confirmed_r = true;
      },
      renew m a now,
    )
    else exchange_new m owner verifier principal now slot

unfoldable pub exchange_id :
    StateMgr → List ℕ → List ℕ → List ℕ → Bool → ℕ → ExchangeResult × StateMgr
unfolding find exchange_update exchange_confirmed
exchange_id m owner verifier principal update now =
    let slot = slot_or_new (find owner m.registry.by_owner) in
    if update
    then exchange_update m owner verifier principal now slot
    else exchange_confirmed m owner verifier principal now slot slot.confirmed
