-- ===== src/Clients/Confirms.antt =====
-- `create_session`, `confirm_create_session` and the operations by which clients leave, in
-- src/state/state_mgr.cpp, as moves of the view of the tables.
mod Buried
pub use Buried.*
use mathlib.Core.Path.{fun_ext, subst}
use lightnfs.Prelude.{
  ℕ, ◌≡◌, refl, sym, ap, ◌∙◌, Bool, true, false, not, ◌&&◌, Option, none, some, List, [], ◌∷◌, ◌++◌,
  ◌==◌, ==_refl, bytes_eq_refl, if◌then◌else◌, bytes_eq, Bool-cases, inl, inr, arith,
}
use lightnfs.Maps.{bytes, number, find}
use lightnfs.Clients.Types.{OwnerSlot, points}
use lightnfs.Sessions.Types.{Client, StateMgr, next32, decr64}
use lightnfs.Sessions.Sequence.{write_client, renew}
use lightnfs.Clients.Exchange.{find_client, set_slot, next_clientid}
use lightnfs.Clients.Session.{
  CreateArgs, bury, other_than, bury_old, confirm_in, slot_of, old_incarnation, add_session,
  drop_incarnation, confirm_client, grant_session, create_found, create_for, create_session,
  session_id, is_some, persist_client, cache_reply, confirm_for, confirm_create_session,
}
use lightnfs.Clients.Kept.{Kept-refl, drop_old-Kept, Kept}
use lightnfs.Clients.View.{
  Face, face, View, see, view, at_id, at_rec, IsIn, dropped, promoted, Moves, drops, promotes, here,
  then_move, IsConsistent,
}
use lightnfs.Clients.Tables.{
  Kept-view, if-view, heap-view, write_client-view, renew-view, store-view, unregister-view, places,
  placed, set_slot-view,
}
use lightnfs.Clients.Moves.{one}
use lightnfs.Clients.Registers.{at_owner-twice, write-face}

-- The record takes the place of one that is buried.
pub confirm_over :
    (m : StateMgr) (a b : ℕ)
    → IsConsistent (view m)
    → IsIn (view m) a
    → ((view m).faces a).confirmed ≡ false
    → (view m).confirmed ((view m).faces a).owner_id ≡ some b
    → view (
        write_client
          (set_slot
            (bury m b)
            ((view m).faces a).owner_id
            (claims a (places (view m) ((view m).faces a).owner_id)))
          a
          (record ((bury m b).clients a) { confirmed = true }))
      ≡ promoted (dropped (view m) b) a
confirm_over m a b c h u e =
    let o = ((view m).faces a).owner_id in
    let s = claims a (places (view m) o) in
    confirm-seated (bury m b) o s a
    ∙ (ap (λ (v : View). seated v o s a)
          (bury-view m b
            ∙ ap
                (λ (x : Face). record (view m) {
                  index = at_id x.clientid none (view m).index;
                  by_id = at_id x.clientid none (view m).by_id;
                })
                (sym (faces-view m b)))
        ∙ buried-promoted (view m) a b c h u e)

confirm_old :
    (m : StateMgr) (a : ℕ) (old : Option ℕ)
    → IsConsistent (view m)
    → IsIn (view m) a
    → ((view m).faces a).confirmed ≡ false
    → (view m).confirmed ((view m).faces a).owner_id ≡ old
    → Moves (view m) (
        view (
          write_client
            (set_slot
              (bury_old m old)
              ((view m).faces a).owner_id
              (claims a (places (view m) ((view m).faces a).owner_id)))
            a
            (record ((bury_old m old).clients a) { confirmed = true })))
confirm_old m a none c h u e =
    let o = ((view m).faces a).owner_id in
    one (
      promotes a h u e
        (confirm-seated m o (claims a (places (view m) o)) a ∙ seated-promoted (view m) a c h u))
confirm_old m a (some b) c h u e =
    let o = ((view m).faces a).owner_id in
    let (isin, owner, conf) = c.of_confirmed o b e in
    then_move (one (drops b isin refl)) (
      promotes a (buried-IsIn (view m) a b h isin u conf) (dropped-face (view m) b a ∙ u)
        (ap (λ (x : Face). (dropped (view m) b).confirmed x.owner_id) (dropped-faces (view m) b a)
          ∙ buried-free (view m) b o owner conf)
        (confirm_over m a b c h u e))

pub other_same :
    (v : View) (a : ℕ) (o : List ℕ) (old : Option ℕ)
    → IsConsistent v
    → (v.faces a).confirmed ≡ false
    → v.confirmed o ≡ old
    → other_than a old ≡ old
other_same v a o none c u e = refl
other_same v a o (some b) c u e = ground (arith, c.of_confirmed o b e)

confirm_in-Moves :
    (m : StateMgr) (a : ℕ)
    → IsConsistent (view m)
    → IsIn (view m) a
    → ((view m).faces a).confirmed ≡ false
    → Moves (view m) (view (confirm_in m a (places (view m) ((view m).faces a).owner_id)))
unfolding confirm_in
confirm_in-Moves m a c h u =
    let o = ((view m).faces a).owner_id in
    rw (other_same (view m) a o ((view m).confirmed o) c u refl, ← owner-view m a)
      (confirm_old m a ((view m).confirmed o) c h u refl)

if-Moves :
    {v : View} (x y : StateMgr) (b : Bool)
    → Moves v (view x)
    → (b ≡ false → Moves v (view y))
    → Moves v (view (if b then x else y))
if-Moves x y true p q = p
if-Moves x y false p q = q refl

pub faces-confirmed :
    (m : StateMgr) (a : ℕ) → (m.clients a).confirmed ≡ false → ((view m).faces a).confirmed ≡ false
unfolding view see
faces-confirmed m a h = h

pub drop_incarnation-Kept : (m n : StateMgr) (old : Option ℕ) → Kept n (drop_incarnation m n old)
unfolding drop_incarnation
drop_incarnation-Kept m n none = Kept-refl n
drop_incarnation-Kept m n (some b) = drop_old-Kept n (m.clients b)

pub slot_of-places :
    (m : StateMgr) (a : ℕ) → slot_of m a ≡ places (view m) ((view m).faces a).owner_id
unfolding slot_of view see
slot_of-places m a = refl

pub confirm_client-Moves :
    (m : StateMgr) (a : ℕ)
    → IsConsistent (view m)
    → IsIn (view m) a
    → Moves (view m) (view (confirm_client m a))
unfolding confirm_client
confirm_client-Moves m a c h =
    if-Moves m (confirm_in m a (slot_of m a)) (m.clients a).confirmed here
      (λ q. rw (slot_of-places m a) (confirm_in-Moves m a c h (faces-confirmed m a q)))

-- After the client is confirmed, the tables do not change.
pub grant_session-view :
    (m : StateMgr) (a : ℕ) (args : CreateArgs) (nonce now : ℕ)
    → view (grant_session m a args nonce now).1 ≡ view (confirm_client m a)
unfolding grant_session
grant_session-view m a args nonce now =
    let m1 = confirm_client m a in
    let m2 = (add_session m1 a args nonce now).1 in
    Kept-view (drop_incarnation-Kept m m2 (old_incarnation m a))
    ∙ add_session-view m1 a args nonce now

pub grant_session-Moves :
    (m : StateMgr) (a : ℕ) (args : CreateArgs) (nonce now : ℕ)
    → IsConsistent (view m)
    → IsIn (view m) a
    → Moves (view m) (view (grant_session m a args nonce now).1)
grant_session-Moves m a args nonce now c h =
    subst (Moves (view m)) (sym (grant_session-view m a args nonce now))
      (confirm_client-Moves m a c h)

create_found-Moves :
    (m : StateMgr) (a : ℕ) (args : CreateArgs) (nonce now : ℕ)
    → IsConsistent (view m)
    → IsIn (view m) a
    → Moves (view m) (view (create_found m a args nonce now).1)
unfolding create_found
create_found-Moves m a args nonce now c h =
    let x = m.clients a in
    elim (Bool-cases (not x.confirmed && not (bytes_eq x.principal args.principal))) [
      | inl p ↦ rw p here
      | inr p ↦ elim (Bool-cases (next32 args.sequence == x.cs_sequence && x.confirmed)) [
        | inl q ↦ rw (p, q) here
        | inr q ↦ elim (Bool-cases (args.sequence == x.cs_sequence)) [
          | inl r ↦ rw (p, q, r) (grant_session-Moves m a args nonce now c h)
          | inr r ↦ rw (p, q, r) here
        ]
      ]
    ]

create_for-Moves :
    (m : StateMgr) (a : Option ℕ) (args : CreateArgs) (nonce now : ℕ)
    → IsConsistent (view m)
    → find_client m args.clientid ≡ a
    → Moves (view m) (view (create_for m a args nonce now).1)
create_for-Moves m none args nonce now c h = here
create_for-Moves m (some a) args nonce now c h =
    create_found-Moves m a args nonce now c (find_client-IsIn m args.clientid a c h).0

pub create_session-Moves :
    (m : StateMgr) (args : CreateArgs) (nonce now : ℕ)
    → IsConsistent (view m)
    → Moves (view m) (view (create_session m args nonce now).1)
unfolding create_session
create_session-Moves m args nonce now c = create_for-Moves m _ args nonce now c refl

persist_client-view : (m : StateMgr) (a : ℕ) → view (persist_client m a) ≡ view m
unfolding persist_client
persist_client-view m a = if-view _ _ m.cfg.per_fsid_reclaim refl (store-view m _)

pub cache_reply-view :
    (m : StateMgr) (a : ℕ) (reply : List ℕ) → view (cache_reply m a reply) ≡ view m
unfolding cache_reply
cache_reply-view m a reply =
    let c' : Client = record (m.clients a) { cs_cached_reply = reply; persisted = true } in
    let kept = write_client-view m a c' refl in
    if-view _ _ (m.clients a).persisted kept (persist_client-view (write_client m a c') a ∙ kept)

confirm_for-view :
    (m : StateMgr) (a : Option ℕ) (id : ℕ) (reply : List ℕ)
    → view (confirm_for m a id reply) ≡ view m
unfolding confirm_for
confirm_for-view m none id reply = refl
confirm_for-view m (some a) id reply =
    if-view _ _ (is_some (find id m.registry.by_id)) (cache_reply-view m a reply) refl

pub confirm_create_session-view :
    (m : StateMgr) (id : ℕ) (reply : List ℕ) → view (confirm_create_session m id reply) ≡ view m
unfolding confirm_create_session
confirm_create_session-view m id reply = confirm_for-view m _ id reply
