-- ===== src/Clients/Registers.antt =====
-- `exchange_id` of src/state/state_mgr.cpp as moves of the view of the tables.
use mathlib.Core.Path.{fun_ext, subst}
use lightnfs.Prelude.{
  ℕ, ◌+◌, ◌*◌, ◌%◌, ◌^◌, ◌<◌, ◌≡◌, refl, sym, ap, ◌∙◌, Bool, true, false, ◌&&◌, Option, none, some,
  List, ◌==◌, if◌then◌else◌, bytes_eq, bytes_eq_refl, Bool-cases, inl, inr, arith,
}
use lightnfs.Maps.{bytes, number, put, find-put}
use lightnfs.Clients.Types.{OwnerSlot}
use lightnfs.Sessions.Types.{Client, StateMgr, next32, incr64}
use lightnfs.Sessions.Sequence.{write_client, renew}
use lightnfs.Clients.Exchange.{
  next_clientid, write_registry, set_slot, is_none, unregister, unpersist_client, no_slot,
  new_client, enroll, replace_unconfirmed, at_cap, exchange_new, exchange_confirmed,
  exchange_update, update_found, exchange_id, has_state,
}
use lightnfs.Clients.View.{
  face, View, see, view, at_id, at_owner, enrolled, dropped, Moves, enrolls, drops, here, then_move,
  IsConsistent, Move-IsConsistent, Moves-trans,
}
use lightnfs.Clients.Tables.{
  arm_lease_check-view, renew-view, renew-tables, unpersist_client-view, unregister-view, places,
  placed, placed-same, at_owner-same, set_slot-view, drop_slot-view, find-places, is_none-no_slot,
  put-confirmed, put-unconfirmed,
}
use lightnfs.Clients.Moves.{one, stay}

-- A new id is still to be had.
abbrev pub HasRoom : StateMgr → Type 0
HasRoom m = m.registry.next_client + 1 < 2 ^ 32

pub at_owner-twice :
    (o : List ℕ) (u v : Option ℕ) (f : List ℕ → Option ℕ)
    → at_owner o u (at_owner o v f) ≡ at_owner o u f
at_owner-twice o u v f =
    fun_ext (λ p. elim (Bool-cases (bytes_eq o p)) [ inl q ↦ rw q | inr q ↦ rw q ])

at_owner_self : (o : List ℕ) (v : Option ℕ) (f : List ℕ → Option ℕ) → at_owner o v f o ≡ v
at_owner_self o v f = rw (bytes_eq_refl o)

places-placed : (v : View) (o : List ℕ) (s : OwnerSlot) → places (placed v o s) o ≡ s
places-placed v o s = rw (bytes_eq_refl o)

id_after :
    (m : StateMgr)
    → HasRoom m
    → m.cfg.boot_epoch * 2 ^ 32 % 2 ^ 64 + next32 m.registry.next_client ≡ next_clientid m + 1
unfolding next_clientid
id_after m h = omega arith

without_none : (s : OwnerSlot) → s.unconfirmed ≡ none → s ≡ record s { unconfirmed = none }
without_none s h = ground arith

pub write-face :
    (m : StateMgr) (a : ℕ) (c : Client) (i : ℕ)
    → face ((write_client m a c).clients i) ≡ (if i == a then face c else face (m.clients i))
write-face m a c i = elim (Bool-cases (i == a)) [ inl q ↦ rw q | inr q ↦ rw q ]

renew-face : (m : StateMgr) (a now i : ℕ) → face ((renew m a now).clients i) ≡ face (m.clients i)
unfolding view see
renew-face m a now i = ap (λ (v : View). v.faces i) (renew-view m a now)

-- The tables after a registration, over a manager with the same tables.
registered-view :
    (m n : StateMgr) (o : List ℕ) (slot : OwnerSlot) (c : Client)
    → n.registry ≡ m.registry
    → n.cfg ≡ m.cfg
    → ((i : ℕ)
        → face (n.clients i) ≡ (if i == m.registry.next_rec then face c else face (m.clients i)))
    → face c ≡ record { clientid = next_clientid m; owner_id = o; confirmed = false }
    → slot.unconfirmed ≡ none
    → HasRoom m
    → view (
        write_registry n (record n.registry {
          by_owner =
              put o (record slot { unconfirmed = some m.registry.next_rec }) n.registry.by_owner;
          by_id = put (next_clientid m) m.registry.next_rec n.registry.by_id;
          client_idx = put (next_clientid m) m.registry.next_rec n.registry.client_idx;
          next_client = next32 n.registry.next_client;
          next_rec = m.registry.next_rec + 1;
          client_count = incr64 n.registry.client_count;
        }))
      ≡ enrolled (placed (view m) o slot) o
unfolding view see enrolled
registered-view m n o slot c r g h f u k = rw (
  r,
  g,
  fun_ext h,
  f,
  u,
  fun_ext (λ j. find-put j (next_clientid m) m.registry.next_rec m.registry.client_idx),
  fun_ext (λ j. find-put j (next_clientid m) m.registry.next_rec m.registry.by_id),
  fun_ext (λ p.
      put-confirmed p o (record slot { unconfirmed = some m.registry.next_rec })
        m.registry.by_owner),
  fun_ext (λ p.
      put-unconfirmed p o (record slot { unconfirmed = some m.registry.next_rec })
        m.registry.by_owner),
  at_owner-twice o (some m.registry.next_rec) none (view m).unconfirmed,
  id_after m k,
)

enroll-view :
    (m : StateMgr) (o verifier principal : List ℕ) (now : ℕ) (slot : OwnerSlot)
    → slot.unconfirmed ≡ none
    → HasRoom m
    → view (enroll m o verifier principal now slot).1 ≡ enrolled (placed (view m) o slot) o
unfolding enroll
enroll-view m o verifier principal now slot u k =
    let a = m.registry.next_rec in
    let c = new_client o principal verifier (next_clientid m) in
    let m1 = write_client m a c in
    let (r, g) = renew-tables m1 a now in
    arm_lease_check-view _ a _
    ∙ registered-view m (renew m1 a now) o slot c r g
        (λ i. renew-face m1 a now i ∙ write-face m a c i) refl u k

unplaced-dropped :
    (v : View) (o : List ℕ) (slot : OwnerSlot) (u : ℕ)
    → (v.faces u).owner_id ≡ o
    → (v.faces u).confirmed ≡ false
    → placed
        (record v {
          index = at_id (v.faces u).clientid none v.index;
          by_id = at_id (v.faces u).clientid none v.by_id;
        })
        o
        (record slot { unconfirmed = none })
      ≡ dropped (placed v o slot) u
unfolding dropped
unplaced-dropped v o slot u e h = rw (h, e, at_owner-twice o none slot.unconfirmed v.unconfirmed)

replace_unconfirmed-Moves :
    (m : StateMgr) (o : List ℕ) (slot : OwnerSlot) (u : Option ℕ)
    → slot.unconfirmed ≡ u
    → IsConsistent (placed (view m) o slot)
    → Moves (placed (view m) o slot) (view (replace_unconfirmed m o slot u))
      × (places (view (replace_unconfirmed m o slot u)) o ≡ record slot { unconfirmed = none })
unfolding replace_unconfirmed view see
replace_unconfirmed-Moves m o slot none e c =
    let same = set_slot-view m o slot in
    (
      stay same,
      ap (λ (v : View). places v o) same ∙ (places-placed (view m) o slot ∙ without_none slot e),
    )
replace_unconfirmed-Moves m o slot (some u) e c =
    let id = (m.clients u).clientid in
    let mid : View = record (view m) {
      index = at_id id none (view m).index;
      by_id = at_id id none (view m).by_id;
    } in
    let same =
      set_slot-view (unregister m id) o (record slot { unconfirmed = none })
      ∙ ap (λ (v : View). placed v o (record slot { unconfirmed = none })) (unregister-view m id) in
    let (isin, owner, open_) =
      c.of_unconfirmed o u (at_owner_self o slot.unconfirmed (view m).unconfirmed ∙ e) in
    (
      one (drops u isin (same ∙ unplaced-dropped (view m) o slot u owner open_)),
      ap (λ (v : View). places v o) same ∙ places-placed mid o (record slot { unconfirmed = none }),
    )

unclaimed : (s : OwnerSlot) → is_none s.confirmed ≡ true → record s { unconfirmed = none } ≡ no_slot
unclaimed s h = ground arith

room_after :
    (m : StateMgr) (o : List ℕ) (slot : OwnerSlot) (u : Option ℕ)
    → HasRoom m
    → HasRoom (replace_unconfirmed m o slot u)
unfolding replace_unconfirmed unregister
room_after m o slot none k = k
room_after m o slot (some u) k = k

-- A registration, from the tables in which the owner has this slot.
exchange_new-Moves :
    (m : StateMgr) (o verifier principal : List ℕ) (now : ℕ) (slot : OwnerSlot)
    → HasRoom m
    → IsConsistent (placed (view m) o slot)
    → Moves (placed (view m) o slot) (view (exchange_new m o verifier principal now slot).1)
unfolding exchange_new
exchange_new-Moves m o verifier principal now slot k c =
    let (ms, free) = replace_unconfirmed-Moves m o slot slot.unconfirmed refl c in
    let m' = replace_unconfirmed m o slot slot.unconfirmed in
    let slot' : OwnerSlot = record slot { unconfirmed = none } in
    elim (Bool-cases (at_cap m')) [
      | inl q ↦ elim (Bool-cases (is_none slot.confirmed)) [
        | inl n ↦
            rw (q, n)
              (subst (Moves (placed (view m) o slot))
                (sym
                  (drop_slot-view m' o ∙ placed-same (view m') o no_slot (free ∙ unclaimed slot n)))
                ms)
        | inr n ↦ rw (q, n) ms
      ]
      | inr q ↦ rw q (
          then_move ms (
            enrolls o (ap (λ (s : OwnerSlot). s.unconfirmed) free) (
              enroll-view m' o verifier principal now slot' refl
                (room_after m o slot slot.unconfirmed k)
              ∙ ap (λ (v : View). enrolled v o) (placed-same (view m') o slot' free))))
    ]

-- A registration beside the confirmed record, or without one.
exchange_beside :
    (m : StateMgr) (o verifier principal : List ℕ) (now : ℕ) (slot : OwnerSlot)
    → places (view m) o ≡ slot
    → HasRoom m
    → IsConsistent (view m)
    → Moves (view m) (view (exchange_new m o verifier principal now slot).1)
exchange_beside m o verifier principal now slot p k c =
    let same = placed-same (view m) o slot p in
    subst (λ w. Moves w (view (exchange_new m o verifier principal now slot).1)) same
      (exchange_new-Moves m o verifier principal now slot k (subst IsConsistent (sym same) c))

emptied-dropped :
    (v : View) (o : List ℕ) (a : ℕ)
    → (v.faces a).owner_id ≡ o
    → (v.faces a).confirmed ≡ true
    → placed
        (record v {
          index = at_id (v.faces a).clientid none v.index;
          by_id = at_id (v.faces a).clientid none v.by_id;
        })
        o
        (record (places v o) { confirmed = none })
      ≡ dropped v a
unfolding dropped
emptied-dropped v o a e h = rw (h, e, at_owner-same o (v.unconfirmed o) v.unconfirmed refl)

unpersist-room : (m : StateMgr) (a : ℕ) → HasRoom m → HasRoom (unpersist_client m a)
unfolding unpersist_client
unpersist-room m a k = elim (Bool-cases m.cfg.per_fsid_reclaim) [ inl q ↦ rw q k | inr q ↦ rw q k ]

unregister-room : (m : StateMgr) (id : ℕ) → HasRoom m → HasRoom (unregister m id)
unfolding unregister
unregister-room m id k = k

-- A registration in place of a confirmed record that holds nothing.
exchange_instead :
    (m : StateMgr) (o verifier principal : List ℕ) (now a : ℕ)
    → (view m).confirmed o ≡ some a
    → HasRoom m
    → IsConsistent (view m)
    → Moves (view m) (
        view
          (exchange_new
            (unregister (unpersist_client m a) ((view m).faces a).clientid)
            o
            verifier
            principal
            now
            (record (places (view m) o) { confirmed = none })).1)
exchange_instead m o verifier principal now a e k c =
    let id = ((view m).faces a).clientid in
    let slot : OwnerSlot = record (places (view m) o) { confirmed = none } in
    let m1 = unregister (unpersist_client m a) id in
    let (isin, owner, conf) = c.of_confirmed o a e in
    let gone : placed (view m1) o slot ≡ dropped (view m) a =
      ap (λ (v : View). placed v o slot)
        (unregister-view (unpersist_client m a) id
          ∙ ap
              (λ (v : View). record v {
                index = at_id id none v.index;
                by_id = at_id id none v.by_id;
              })
              (unpersist_client-view m a))
      ∙ emptied-dropped (view m) o a owner conf in
    let first = drops a isin gone in
    Moves-trans (one first) (
      exchange_new-Moves m1 o verifier principal now slot
        (unregister-room (unpersist_client m a) id (unpersist-room m a k))
        (Move-IsConsistent c first))

exchange_confirmed-Moves :
    (m : StateMgr) (o verifier principal : List ℕ) (now : ℕ) (b : Option ℕ)
    → (view m).confirmed o ≡ b
    → HasRoom m
    → IsConsistent (view m)
    → Moves (view m) (view (exchange_confirmed m o verifier principal now (places (view m) o) b).1)
unfolding exchange_confirmed view see
exchange_confirmed-Moves m o verifier principal now none e k c =
    exchange_beside m o verifier principal now (places (view m) o) refl k c
exchange_confirmed-Moves m o verifier principal now (some a) e k c =
    let x = m.clients a in
    elim (Bool-cases (bytes_eq x.principal principal)) [
      | inr p ↦ elim (Bool-cases (has_state x)) [
        | inl s ↦ rw (p, s) here
        | inr s ↦ rw (p, s) (exchange_instead m o verifier principal now a e k c)
      ]
      | inl p ↦ elim (Bool-cases (bytes_eq x.verifier verifier)) [
        | inl s ↦ rw (p, s) (stay (renew-view m a now))
        | inr s ↦
            rw (p, s) (exchange_beside m o verifier principal now (places (view m) o) refl k c)
      ]
    ]

update_found-view :
    (m : StateMgr) (verifier principal : List ℕ) (now : ℕ) (b : Option ℕ)
    → view (update_found m verifier principal now b).1 ≡ view m
unfolding update_found
update_found-view m verifier principal now none = refl
update_found-view m verifier principal now (some a) =
    let x = m.clients a in
    elim (Bool-cases (bytes_eq x.verifier verifier)) [
      | inr p ↦ rw p
      | inl p ↦ elim (Bool-cases (bytes_eq x.principal principal)) [
        | inl s ↦ rw (p, s) (renew-view m a now)
        | inr s ↦ rw (p, s)
      ]
    ]

exchange_update-view :
    (m : StateMgr) (o verifier principal : List ℕ) (now : ℕ) (slot : OwnerSlot)
    → places (view m) o ≡ slot
    → view (exchange_update m o verifier principal now slot).1 ≡ view m
unfolding exchange_update
exchange_update-view m o verifier principal now slot p =
    let m' = set_slot m o slot in
    let kept : view (update_found m' verifier principal now slot.confirmed).1 ≡ view m =
      update_found-view m' verifier principal now slot.confirmed
      ∙ (set_slot-view m o slot ∙ placed-same (view m) o slot p) in
    elim (Bool-cases (is_none slot.confirmed && is_none slot.unconfirmed)) [
      | inl q ↦ rw q (
          drop_slot-view _ o
          ∙ (placed-same _ o no_slot
                (ap (λ (v : View). places v o) kept ∙ (p ∙ is_none-no_slot slot q))
              ∙ kept))
      | inr q ↦ rw q kept
    ]

pub exchange_id-Moves :
    (m : StateMgr) (o verifier principal : List ℕ) (update : Bool) (now : ℕ)
    → HasRoom m
    → IsConsistent (view m)
    → Moves (view m) (view (exchange_id m o verifier principal update now).1)
unfolding exchange_id
exchange_id-Moves m o verifier principal true now k c =
    stay (exchange_update-view m o verifier principal now _ (find-places m o))
exchange_id-Moves m o verifier principal false now k c =
    rw (← find-places m o)
      (exchange_confirmed-Moves m o verifier principal now ((view m).confirmed o) refl k c)
