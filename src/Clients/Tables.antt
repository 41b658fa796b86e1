-- ===== src/Clients/Tables.antt =====
-- What the changes of the tables in src/state/state_mgr.cpp do to their view.
use mathlib.Core.Path.{fun_ext}
use lightnfs.Prelude.{
  ℕ, ◌+◌, ◌≡◌, refl, sym, ap, ◌∙◌, Bool, true, false, ◌&&◌, Option, none, some, List, [], ◌==◌,
  if◌then◌else◌, bytes_eq, bytes_eq-eq, Bool-cases, inl, inr, ==_iff, arith,
}
use lightnfs.Maps.{bytes, number, find, put, erase, find-put, find-erase}
use lightnfs.Config.{Config}
use lightnfs.Clients.Types.{Registry, OwnerSlot, Stable}
use lightnfs.Sessions.Types.{Client, StateMgr}
use lightnfs.Sessions.Sequence.{write_client, armed_by, arm_lease_check, renew}
use lightnfs.Opens.Unlink.{store}
use lightnfs.Clients.Exchange.{
  slot_or_new, next_clientid, write_registry, set_slot, drop_slot, is_none, unregister,
  unpersist_client, delist_all, no_slot,
}
use lightnfs.Clients.Leave.{leave_slot, leave_in, leave_owner, end_courtesy}
use lightnfs.Clients.Kept.{Kept}
use lightnfs.Clients.View.{face, View, see, view, at_id, at_owner}

-- The view depends on the tables, the epoch and the faces.
pub view_of :
    (m n : StateMgr)
    → n.registry ≡ m.registry
    → n.cfg ≡ m.cfg
    → ((i : ℕ) → face (n.clients i) ≡ face (m.clients i))
    → view n ≡ view m
unfolding view next_clientid
view_of m n r g h = rw (r, g, fun_ext h)

pub Kept-view : {m n : StateMgr} → Kept m n → view n ≡ view m
Kept-view {m} {n} k = view_of m n k.registry k.cfg (λ i. ap face (k.clients i))

pub write_client-view :
    (m : StateMgr) (a : ℕ) (c : Client)
    → face c ≡ face (m.clients a)
    → view (write_client m a c) ≡ view m
write_client-view m a c h =
    view_of m (write_client m a c) refl refl
      (λ i. elim (Bool-cases (i == a)) [ inl q ↦ rw q (rw ((==_iff i a).0 q) h) | inr q ↦ rw q ])

pub if-view :
    (x y : StateMgr) {v : View} (b : Bool) → view x ≡ v → view y ≡ v → view (if b then x else y) ≡ v
if-view x y true p q = p
if-view x y false p q = q

-- Fields that the view does not see.
pub heap-view :
    (m n : StateMgr)
    → n.registry ≡ m.registry
    → n.cfg ≡ m.cfg
    → n.clients ≡ m.clients
    → view n ≡ view m
heap-view m n r g c = view_of m n r g (λ i. ap (λ (f : ℕ → Client). face (f i)) c)

pub arm_lease_check-view : (m : StateMgr) (a when : ℕ) → view (arm_lease_check m a when) ≡ view m
unfolding arm_lease_check
arm_lease_check-view m a when =
    let c : Client = record (m.clients a) { lease_heap_deadline = some when } in
    if-view _ _ (armed_by (m.clients a).lease_heap_deadline when) refl
      (heap-view (write_client m a c) _ refl refl refl ∙ write_client-view m a c refl)

pub renew-view : (m : StateMgr) (a now : ℕ) → view (renew m a now) ≡ view m
unfolding renew
renew-view m a now =
    let c : Client = record (m.clients a) {
      lease_expiry = now + m.cfg.lease_seconds;
      courtesy = false;
    } in
    let m' = write_client m a c in
    let kept = write_client-view m a c refl in
    if-view _ _ (m.clients a).courtesy
      (arm_lease_check-view _ a _ ∙ (heap-view m' _ refl refl refl ∙ kept)) kept

pub armed-tables :
    {g : Registry} {k : Config} (b : Bool) (x y : StateMgr)
    → (x.registry ≡ g) × (x.cfg ≡ k)
    → (y.registry ≡ g) × (y.cfg ≡ k)
    → ((if b then x else y).registry ≡ g) × ((if b then x else y).cfg ≡ k)
armed-tables true x y p q = p
armed-tables false x y p q = q

pub renew-tables :
    (m : StateMgr) (a now : ℕ)
    → ((renew m a now).registry ≡ m.registry) × ((renew m a now).cfg ≡ m.cfg)
unfolding renew arm_lease_check
renew-tables m a now = elim (Bool-cases (m.clients a).courtesy) [
  | inl q ↦ rw q (armed-tables _ _ _ (refl, refl) (refl, refl))
  | inr q ↦ rw q (refl, refl)
]

pub end_courtesy-view : (m : StateMgr) (a : ℕ) → view (end_courtesy m a) ≡ view m
unfolding end_courtesy
end_courtesy-view m a =
    let c : Client = record (m.clients a) { courtesy = false } in
    let m' = write_client m a c in
    let kept = write_client-view m a c refl in
    if-view _ _ (m.clients a).courtesy (heap-view m' _ refl refl refl ∙ kept) kept

pub store-view : (m : StateMgr) (s : Stable) → view (store m s) ≡ view m
unfolding view see next_clientid
store-view m s = refl

calls-view :
    (m : StateMgr) (calls : List Stable)
    → view (write_registry m (record m.registry { stable = calls })) ≡ view m
unfolding view see next_clientid
calls-view m calls = refl

pub unpersist_client-view : (m : StateMgr) (a : ℕ) → view (unpersist_client m a) ≡ view m
unfolding unpersist_client
unpersist_client-view m a =
    let c = m.clients a in
    let calls = delist_all c.fs_states c.owner_id m.registry.stable in
    let m' = write_registry m (record m.registry { stable = calls }) in
    if-view _ _ m.cfg.per_fsid_reclaim
      (write_client-view m' a (record c { fs_states = [] }) refl ∙ calls-view m calls)
      (store-view m _)

pub unregister-view :
    (m : StateMgr) (id : ℕ)
    → view (unregister m id) ≡ record (view m) {
      index = at_id id none (view m).index;
      by_id = at_id id none (view m).by_id;
    }
unfolding view see unregister next_clientid
unregister-view m id = rw (
  fun_ext (λ j. find-erase j id m.registry.client_idx),
  fun_ext (λ j. find-erase j id m.registry.by_id),
)

pub put-confirmed :
    (p o : List ℕ) (slot : OwnerSlot) (l : List (List ℕ × OwnerSlot))
    → (slot_or_new (find p (put o slot l))).confirmed
      ≡ at_owner o slot.confirmed (λ q. (slot_or_new (find q l)).confirmed) p
put-confirmed p o slot l = elim (Bool-cases (bytes_eq o p)) [
  | inl q ↦ rw (find-put p o slot l, q)
  | inr q ↦ rw (find-put p o slot l, q)
]

pub put-unconfirmed :
    (p o : List ℕ) (slot : OwnerSlot) (l : List (List ℕ × OwnerSlot))
    → (slot_or_new (find p (put o slot l))).unconfirmed
      ≡ at_owner o slot.unconfirmed (λ q. (slot_or_new (find q l)).unconfirmed) p
put-unconfirmed p o slot l = elim (Bool-cases (bytes_eq o p)) [
  | inl q ↦ rw (find-put p o slot l, q)
  | inr q ↦ rw (find-put p o slot l, q)
]

erase-confirmed :
    (p o : List ℕ) (l : List (List ℕ × OwnerSlot))
    → (slot_or_new (find p (erase o l))).confirmed
      ≡ at_owner o none (λ q. (slot_or_new (find q l)).confirmed) p
erase-confirmed p o l = elim (Bool-cases (bytes_eq o p)) [
  | inl q ↦ rw (find-erase p o l, q)
  | inr q ↦ rw (find-erase p o l, q)
]

erase-unconfirmed :
    (p o : List ℕ) (l : List (List ℕ × OwnerSlot))
    → (slot_or_new (find p (erase o l))).unconfirmed
      ≡ at_owner o none (λ q. (slot_or_new (find q l)).unconfirmed) p
erase-unconfirmed p o l = elim (Bool-cases (bytes_eq o p)) [
  | inl q ↦ rw (find-erase p o l, q)
  | inr q ↦ rw (find-erase p o l, q)
]

-- The places of an owner, and a change of them.
abbrev pub places : View → List ℕ → OwnerSlot
places v o = record { confirmed = v.confirmed o; unconfirmed = v.unconfirmed o }

abbrev pub placed : View → List ℕ → OwnerSlot → View
placed v o slot = record v {
  confirmed = at_owner o slot.confirmed v.confirmed;
  unconfirmed = at_owner o slot.unconfirmed v.unconfirmed;
}

pub set_slot-view :
    (m : StateMgr) (o : List ℕ) (slot : OwnerSlot)
    → view (set_slot m o slot) ≡ placed (view m) o slot
unfolding view see next_clientid
set_slot-view m o slot = rw (
  fun_ext (λ p. put-confirmed p o slot m.registry.by_owner),
  fun_ext (λ p. put-unconfirmed p o slot m.registry.by_owner),
)

pub drop_slot-view : (m : StateMgr) (o : List ℕ) → view (drop_slot m o) ≡ placed (view m) o no_slot
unfolding view see next_clientid
drop_slot-view m o = rw (
  fun_ext (λ p. erase-confirmed p o m.registry.by_owner),
  fun_ext (λ p. erase-unconfirmed p o m.registry.by_owner),
)

-- The owner's slot lets go of the record.
abbrev pub left : View → List ℕ → ℕ → View
left v o a = placed v o (leave_slot a (places v o))

pub at_owner-same :
    (o : List ℕ) (v : Option ℕ) (f : List ℕ → Option ℕ) → f o ≡ v → at_owner o v f ≡ f
at_owner-same o v f h = fun_ext (λ p. elim (Bool-cases (bytes_eq o p)) [
  | inl q ↦ rw (q, ← bytes_eq-eq o p q) (sym h)
  | inr q ↦ rw q
])

pub placed-same :
    (v : View) (o : List ℕ) (slot : OwnerSlot) → places v o ≡ slot → placed v o slot ≡ v
placed-same v o slot h = rw (
  at_owner-same o slot.confirmed v.confirmed (ap (λ (s : OwnerSlot). s.confirmed) h),
  at_owner-same o slot.unconfirmed v.unconfirmed (ap (λ (s : OwnerSlot). s.unconfirmed) h),
)

pub find-places :
    (m : StateMgr) (o : List ℕ) → places (view m) o ≡ slot_or_new (find o m.registry.by_owner)
unfolding view see
find-places m o = refl

pub is_none-no_slot :
    (s : OwnerSlot) → (is_none s.confirmed && is_none s.unconfirmed) ≡ true → s ≡ no_slot
is_none-no_slot s h = ground arith

leave_in-view :
    (m : StateMgr) (o : List ℕ) (a : ℕ) (s : Option OwnerSlot)
    → find o m.registry.by_owner ≡ s
    → view (leave_in m o a s) ≡ left (view m) o a
unfolding leave_in
leave_in-view m o a none h =
    let here : places (view m) o ≡ no_slot = find-places m o ∙ ap slot_or_new h in
    sym (placed-same (view m) o no_slot here)
    ∙ ap (λ (s : OwnerSlot). placed (view m) o (leave_slot a s)) (sym here)
leave_in-view m o a (some slot) h =
    let here : places (view m) o ≡ slot = find-places m o ∙ ap slot_or_new h in
    let slot' = leave_slot a slot in
    let there : placed (view m) o slot' ≡ left (view m) o a =
      ap (λ (s : OwnerSlot). placed (view m) o (leave_slot a s)) (sym here) in
    elim (Bool-cases (is_none slot'.confirmed && is_none slot'.unconfirmed)) [
      | inl q ↦
          rw q
            (drop_slot-view m o ∙ (ap (placed (view m) o) (sym (is_none-no_slot slot' q)) ∙ there))
      | inr q ↦ rw q (set_slot-view m o slot' ∙ there)
    ]

pub leave_owner-view :
    (m : StateMgr) (a : ℕ) → view (leave_owner m a) ≡ left (view m) (m.clients a).owner_id a
unfolding leave_owner
leave_owner-view m a = leave_in-view m (m.clients a).owner_id a _ refl
