-- ===== src/Clients/Confirms/Buried.antt =====
-- A client of src/state/state_mgr.cpp that takes its owner's places, and one that is buried, as moves of
-- the view of the tables.
use mathlib.Core.Path.{fun_ext}
use lightnfs.Prelude.{
  ℕ, ◌≡◌, refl, ap, ◌∙◌, true, false, none, some, List, [], ◌∷◌, ◌++◌, ==_refl, bytes_eq_refl,
  if◌then◌else◌, arith,
}
use lightnfs.Maps.{bytes, number, find}
use lightnfs.Clients.Types.{OwnerSlot, points}
use lightnfs.Sessions.Types.{Client, StateMgr, next32, decr64}
use lightnfs.Sessions.Sequence.{write_client, renew}
use lightnfs.Clients.Exchange.{find_client, set_slot, next_clientid}
use lightnfs.Clients.Session.{CreateArgs, bury, add_session, session_id}
use lightnfs.Clients.View.{
  face, View, see, view, at_id, at_rec, IsIn, dropped, promoted, IsConsistent,
}
use lightnfs.Clients.Tables.{
  if-view, heap-view, write_client-view, renew-view, unregister-view, places, placed, set_slot-view,
}
use lightnfs.Clients.Registers.{at_owner-twice, write-face}

find_client-index :
    (m : StateMgr) (id a : ℕ) → find_client m id ≡ some a → find id m.registry.client_idx ≡ some a
unfolding find_client
find_client-index m id a h = ground arith

-- A found client is registered.
pub find_client-IsIn :
    (m : StateMgr) (id a : ℕ)
    → IsConsistent (view m)
    → find_client m id ≡ some a
    → IsIn (view m) a × ((m.clients a).clientid ≡ id)
unfolding view see
find_client-IsIn m id a c h =
    let found = find_client-index m id a h in
    let named = (c.named id a found).0 in (rw named found, named)

pub add_session-view :
    (m : StateMgr) (a : ℕ) (args : CreateArgs) (nonce now : ℕ)
    → view (add_session m a args nonce now).1 ≡ view m
unfolding add_session
add_session-view m a args nonce now =
    let c = m.clients a in
    let id = session_id c.clientid m.next_session nonce in
    let c' : Client = record c {
      cs_sequence = next32 args.sequence;
      sessions = c.sessions ++ id ∷ [];
    } in
    heap-view (renew (write_client m a c') a now) _ refl refl refl
    ∙ (renew-view (write_client m a c') a now ∙ write_client-view m a c' refl)

-- The record takes its owner's places.
abbrev pub seated : View → List ℕ → OwnerSlot → ℕ → View
seated v o s a = record (placed v o s) {
  faces = at_rec a (record (v.faces a) { confirmed = true }) v.faces;
}

write_client-faces :
    (m : StateMgr) (a : ℕ) (c : Client)
    → view (write_client m a c) ≡ record (view m) { faces = at_rec a (face c) (view m).faces }
unfolding view see next_clientid
write_client-faces m a c = rw (fun_ext (λ i. write-face m a c i))

pub confirm-seated :
    (m : StateMgr) (o : List ℕ) (s : OwnerSlot) (a : ℕ)
    → view (write_client (set_slot m o s) a (record (m.clients a) { confirmed = true }))
      ≡ seated (view m) o s a
unfolding view
confirm-seated m o s a =
    write_client-faces (set_slot m o s) a (record (m.clients a) { confirmed = true })
    ∙ ap
        (λ (v : View). record v {
          faces = at_rec a (record ((view m).faces a) { confirmed = true }) v.faces;
        })
        (set_slot-view m o s)

abbrev pub claims : ℕ → OwnerSlot → OwnerSlot
claims a slot = record {
  confirmed = some a;
  unconfirmed = if points slot.unconfirmed a then none else slot.unconfirmed;
}

-- The confirmed place is free.
pub seated-promoted :
    (v : View) (a : ℕ)
    → IsConsistent v
    → IsIn v a
    → (v.faces a).confirmed ≡ false
    → seated v (v.faces a).owner_id (claims a (places v (v.faces a).owner_id)) a ≡ promoted v a
unfolding promoted
seated-promoted v a c h u = rw (c.in_unconfirmed a h u, ==_refl a)

-- Its record is buried.
pub buried-promoted :
    (v : View) (a b : ℕ)
    → IsConsistent v
    → IsIn v a
    → (v.faces a).confirmed ≡ false
    → v.confirmed (v.faces a).owner_id ≡ some b
    → seated
        (record v {
          index = at_id (v.faces b).clientid none v.index;
          by_id = at_id (v.faces b).clientid none v.by_id;
        })
        (v.faces a).owner_id
        (claims a (places v (v.faces a).owner_id))
        a
      ≡ promoted (dropped v b) a
unfolding promoted dropped
buried-promoted v a b c h u e =
    let (isin, owner, conf) = c.of_confirmed (v.faces a).owner_id b e in
    rw (
      c.in_unconfirmed a h u,
      ==_refl a,
      conf,
      owner,
      at_owner-twice (v.faces a).owner_id (some a) none v.confirmed,
    )

pub buried-IsIn :
    (v : View) (a b : ℕ)
    → IsIn v a
    → IsIn v b
    → (v.faces a).confirmed ≡ false
    → (v.faces b).confirmed ≡ true
    → IsIn (dropped v b) a
unfolding dropped
buried-IsIn v a b h k u e = ground arith

pub buried-free :
    (v : View) (b : ℕ) (o : List ℕ)
    → (v.faces b).owner_id ≡ o
    → (v.faces b).confirmed ≡ true
    → (dropped v b).confirmed o ≡ none
unfolding dropped
buried-free v b o e h = rw (h, e, bytes_eq_refl o)

pub bury-view :
    (m : StateMgr) (b : ℕ)
    → view (bury m b) ≡ record (view m) {
      index = at_id (m.clients b).clientid none (view m).index;
      by_id = at_id (m.clients b).clientid none (view m).by_id;
    }
unfolding bury
bury-view m b =
    let c = m.clients b in
    let c' : Client = record c { expired = true; courtesy = false; sessions = []; states = [] } in
    let m1 = write_client m b c' in
    let m2 = if c.courtesy then record m1 { courtesy_count = decr64 m1.courtesy_count } else m1 in
    let kept : view m2 ≡ view m =
      if-view _ _ c.courtesy (heap-view m1 _ refl refl refl ∙ write_client-view m b c' refl)
        (write_client-view m b c' refl) in
    unregister-view m2 c.clientid
    ∙ ap
        (λ (v : View). record v {
          index = at_id c.clientid none v.index;
          by_id = at_id c.clientid none v.by_id;
        })
        kept

pub faces-view : (m : StateMgr) (a : ℕ) → (view m).faces a ≡ face (m.clients a)
unfolding view see
faces-view m a = refl

pub owner-view : (m : StateMgr) (a : ℕ) → ((view m).faces a).owner_id ≡ (m.clients a).owner_id
unfolding view see
owner-view m a = refl

pub dropped-faces : (v : View) (b a : ℕ) → (dropped v b).faces a ≡ v.faces a
unfolding dropped
dropped-faces v b a = refl

pub dropped-face : (v : View) (b a : ℕ) → ((dropped v b).faces a).confirmed ≡ (v.faces a).confirmed
unfolding dropped
dropped-face v b a = refl
