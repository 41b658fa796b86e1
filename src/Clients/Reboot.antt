-- ===== src/Clients/Reboot.antt =====
-- The reboot of a client in src/state/state_mgr.cpp: a CREATE_SESSION that confirms a new incarnation.
use mathlib.Core.Path.{subst}
use lightnfs.Prelude.{
  ℕ, ◌≡◌, refl, sym, ap, ◌∙◌, true, false, Option, none, some, List, [], ◌∷◌, ==_refl,
  bytes_eq_refl, All, arith,
}
use lightnfs.Maps.{bytes, number, find, has}
use lightnfs.Opens.Closed.{IsGone}
use lightnfs.Opens.Filed.{IsFiled}
use lightnfs.Sessions.Types.{StateMgr}
use lightnfs.Clients.Exchange.{find_client}
use lightnfs.Clients.Session.{
  CreateArgs, create_session, grant_session, confirm_client, confirm_in, slot_of, old_incarnation,
  drop_incarnation, drop_old, add_session, kill_sessions, other_than,
}
use lightnfs.Clients.Kills.{kill_sessions-find, unlink_all-sessions}
use lightnfs.Clients.Unlinked.{confirmed-opens, dropped-IsGone}
use lightnfs.Clients.View.{Face, View, see, view, IsIn, dropped, promoted, IsConsistent}
use lightnfs.Clients.Tables.{places}
use lightnfs.Clients.Confirms.{
  find_client-IsIn, faces-confirmed, slot_of-places, other_same, owner-view, faces-view,
  confirm_over, grant_session-view,
}
use lightnfs.Clients.Granted.{Core, grant_session-core, confirm_client-new, if_false}
use lightnfs.Clients.Created.{IsExecuted, IsGranted, create_session-IsGranted, granted-found}

-- An id that the index does not have is not found.
index-none : (m : StateMgr) (id : ℕ) → (view m).index id ≡ none → find_client m id ≡ none
unfolding view see find_client
index-none m id h = ground arith

promoted-index : (v : View) (a id : ℕ) → (promoted v a).index id ≡ v.index id
unfolding promoted
promoted-index v a id = refl

dropped-index : (v : View) (b id : ℕ) → (v.faces b).clientid ≡ id → (dropped v b).index id ≡ none
unfolding dropped
dropped-index v b id h = rw (h, ==_refl id)

dropped-sessions :
    (m n : StateMgr) (b : ℕ) (id : List ℕ)
    → has id (m.clients b).sessions ≡ true
    → find id (drop_incarnation m n (some b)).sessions ≡ none
unfolding drop_incarnation drop_old
dropped-sessions m n b id k =
    let c = m.clients b in
    ap (find id) (unlink_all-sessions c.states (kill_sessions n c.sessions))
    ∙ (kill_sessions-find c.sessions n id ∙ rw k)

All-has :
    (P : List ℕ → Type 0) (l : List (List ℕ)) → ((id : List ℕ) → has id l ≡ true → P id) → All P l
unfolding has
All-has P [] h = tt
All-has P (id ∷ l) h = (h id (rw (bytes_eq_refl id)), All-has P l (λ j k. h j (ground arith)))

pub one_found : {a b : ℕ} → some a ≡ some b → a ≡ b
one_found h = cc

module _ (m : StateMgr) (a b : ℕ) (c : IsConsistent (view m)) (h : IsIn (view m) a)
    (u : (m.clients a).confirmed ≡ false) (e : (slot_of m a).confirmed ≡ some b) where
  in_place : (view m).confirmed ((view m).faces a).owner_id ≡ some b
  in_place = ap (λ s. s.confirmed) (sym (slot_of-places m a)) ∙ e

  confirm_in-over :
      view (confirm_in m a (places (view m) ((view m).faces a).owner_id))
      ≡ promoted (dropped (view m) b) a
  unfolding confirm_in
  confirm_in-over =
      let o = ((view m).faces a).owner_id in
      let u' = faces-confirmed m a u in
      rw (other_same (view m) a o ((view m).confirmed o) c u' refl, in_place, ← owner-view m a)
        (confirm_over m a b c h u' in_place)

  -- The old incarnation leaves the tables, and the new one takes its place.
  confirm_client-over : view (confirm_client m a) ≡ promoted (dropped (view m) b) a
  confirm_client-over =
      ap view (confirm_client-new m a u)
      ∙ (ap (λ s. view (confirm_in m a s)) (slot_of-places m a) ∙ confirm_in-over)

  replaced : old_incarnation m a ≡ some b
  unfolding old_incarnation
  replaced =
      if_false _ _ _ u
      ∙ (ap (other_than a) e ∙ other_same (view m) a _ (some b) c (faces-confirmed m a u) in_place)

  -- Its id is gone, and so are its sessions.
  pub old-gone :
      (args : CreateArgs) (nonce now : ℕ)
      → find_client (grant_session m a args nonce now).1 (m.clients b).clientid ≡ none
  old-gone args nonce now = index-none (grant_session m a args nonce now).1 (m.clients b).clientid (
      ap (λ (v : View). v.index (m.clients b).clientid)
        (grant_session-view m a args nonce now ∙ confirm_client-over)
      ∙ (promoted-index (dropped (view m) b) a (m.clients b).clientid
          ∙ dropped-index (view m) b (m.clients b).clientid
              (ap (λ (x : Face). x.clientid) (faces-view m b))))

  pub sessions-gone :
      (args : CreateArgs) (nonce now : ℕ) (id : List ℕ)
      → has id (m.clients b).sessions ≡ true
      → find id (grant_session m a args nonce now).1.sessions ≡ none
  unfolding grant_session
  sessions-gone args nonce now id k =
      let m2 = (add_session (confirm_client m a) a args nonce now).1 in
      ap (λ (o : Option ℕ). find id (drop_incarnation m m2 o).sessions) replaced
      ∙ dropped-sessions m m2 b id k

  pub states-IsGone :
      (args : CreateArgs) (nonce now : ℕ) (j : List ℕ)
      → IsFiled m.opens
      → has j (m.clients b).states ≡ true
      → IsGone j (grant_session m a args nonce now).1
  unfolding grant_session
  states-IsGone args nonce now j f k =
      let m2 = (add_session (confirm_client m a) a args nonce now).1 in
      ap (λ (o : Option ℕ). find j (drop_incarnation m m2 o).opens.table) replaced
      ∙ dropped-IsGone m m2 b j (subst IsFiled (sym (confirmed-opens m a args nonce now)) f) k

-- When a client reboots, what its old incarnation held dies with it. A CREATE_SESSION is executed for a
-- client that is not confirmed, while its owner's confirmed place holds another record. Afterwards the
-- old client id is not found; none of the old sessions is in the table of sessions; none of the states
-- that the old record lists, its opens, locks and delegations, is in the table of states; the new
-- client is found by its id, and it is confirmed. Before, the tables of clients are consistent, and a
-- stateid of the table of states leads to a record that has it and is not closed.
pub create_session-reboot :
    (m : StateMgr) (args : CreateArgs) (nonce now a b : ℕ)
    → IsConsistent (view m)
    → IsFiled m.opens
    → find_client m args.clientid ≡ some a
    → (m.clients a).confirmed ≡ false
    → (slot_of m a).confirmed ≡ some b
    → IsExecuted (create_session m args nonce now).0
    → (find_client (create_session m args nonce now).1 (m.clients b).clientid ≡ none)
      × All
          (λ id. find id (create_session m args nonce now).1.sessions ≡ none)
          (m.clients b).sessions
      × All
          (λ j. find j (create_session m args nonce now).1.opens.table ≡ none)
          (m.clients b).states
      × (find_client (create_session m args nonce now).1 args.clientid ≡ some a)
      × (((create_session m args nonce now).1.clients a).confirmed ≡ true)
create_session-reboot m args nonce now a b c filed f u e x =
    let (a', g) = create_session-IsGranted m args nonce now x in
    let same : a' ≡ a = one_found (sym g.found ∙ f) in
    let g' : IsGranted m args nonce now a = subst (IsGranted m args nonce now) same g in
    let isin = (find_client-IsIn m args.clientid a c f).0 in
    rw g'.granted (
      old-gone m a b c isin u e args nonce now,
      All-has _ (m.clients b).sessions (sessions-gone m a b c isin u e args nonce now),
      All-has _ (m.clients b).states
          (λ j k. states-IsGone m a b c isin u e args nonce now j filed k),
      granted-found m args nonce now a c g',
      ap (λ (y : Core). y.confirmed) (grant_session-core m a args nonce now),
    )
