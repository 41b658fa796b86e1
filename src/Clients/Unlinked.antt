-- ===== src/Clients/Unlinked.antt =====
-- The states of a client that `unlink_all` of src/state/state_mgr.cpp drops, and the steps of a
-- CREATE_SESSION before it that leave the states alone.
use lightnfs.Prelude.{
  ℕ, ◌+◌, ◌≡◌, refl, sym, ◌∙◌, Bool, true, false, Option, none, some, List, [], ◌∷◌, if◌then◌else◌,
  Bool-cases, inl, inr, bytes_eq, bytes_eq-eq,
}
use mathlib.Core.Path.{subst}
use lightnfs.Maps.{bytes, number, find, has}
use lightnfs.Opens.Types.{States}
use lightnfs.Opens.Unlink.{unlink_state}
use lightnfs.Opens.Closed.{IsGone, unlink_level-IsGone, unlink_state-IsGone}
use lightnfs.Opens.Filed.{IsFiled, unlink_state-IsFiled}
use lightnfs.Sessions.Types.{StateMgr, decr64}
use lightnfs.Sessions.Sequence.{renew, arm_lease_check, write_client}
use lightnfs.Clients.Exchange.{unregister}
use lightnfs.Clients.Session.{
  CreateArgs, is_some, kill_session, kill_sessions, unlink_all, unlink_found, bury, bury_old,
  other_than, confirm_in, confirm_client, slot_of, add_session, join_session, session_id, drop_old,
  drop_incarnation,
}

unlink_found-IsGone :
    (m : StateMgr) (r : Option ℕ) (j : List ℕ) → IsGone j m → IsGone j (unlink_found m r)
unfolding unlink_state
unlink_found-IsGone m none j h = h
unlink_found-IsGone m (some r) j h = unlink_level-IsGone 2 false false j m r h

unlink_found-IsFiled :
    (m : StateMgr) (r : Option ℕ) → IsFiled m.opens → IsFiled (unlink_found m r).opens
unlink_found-IsFiled m none h = h
unlink_found-IsFiled m (some r) h = unlink_state-IsFiled m r false false h

-- What the table had under the stateid is unlinked.
unlink_found_ends :
    (m : StateMgr) (j : List ℕ) (r : Option ℕ)
    → IsFiled m.opens
    → find j m.opens.table ≡ r
    → IsGone j (unlink_found m r)
unlink_found_ends m j none h e = e
unlink_found_ends m j (some r) h e =
    let (same, live) = h j r e in
    subst (λ i. IsGone i (unlink_state m r false false)) same
      (unlink_state-IsGone m r false false live)

unlink_all-IsGone :
    (others : List (List ℕ)) (m : StateMgr) (j : List ℕ)
    → IsGone j m
    → IsGone j (unlink_all m others)
unfolding unlink_all
unlink_all-IsGone [] m j h = h
unlink_all-IsGone (o ∷ others) m j h =
    let first = find o m.opens.table in
    unlink_all-IsGone others (unlink_found m first) j (unlink_found-IsGone m first j h)

unlink_all_ends :
    (others : List (List ℕ)) (m : StateMgr) (j : List ℕ)
    → IsFiled m.opens
    → has j others ≡ true
    → IsGone j (unlink_all m others)
unfolding unlink_all has
unlink_all_ends [] m j h k = let bad : ⊥ = cc in absurd bad
unlink_all_ends (o ∷ others) m j h k =
    let first = find o m.opens.table in
    elim (Bool-cases (bytes_eq o j)) [
      | inl q ↦ unlink_all-IsGone others (unlink_found m first) j (
          subst (λ i. IsGone i (unlink_found m first)) (bytes_eq-eq o j q)
            (unlink_found_ends m o first h refl))
      | inr q ↦
          unlink_all_ends others (unlink_found m first) j (unlink_found-IsFiled m first h)
            (rw q at k)
    ]

-- The other steps.
if-opens :
    {o : States} (b : Bool) (x y : StateMgr)
    → x.opens ≡ o
    → y.opens ≡ o
    → (if b then x else y).opens ≡ o
if-opens true x y p q = p
if-opens false x y p q = q

kill_session-opens : (m : StateMgr) (id : List ℕ) → (kill_session m id).opens ≡ m.opens
unfolding kill_session
kill_session-opens m id = if-opens (is_some (find id m.sessions)) _ _ refl refl

kill_sessions-opens : (ids : List (List ℕ)) (m : StateMgr) → (kill_sessions m ids).opens ≡ m.opens
unfolding kill_sessions
kill_sessions-opens [] m = refl
kill_sessions-opens (id ∷ ids) m =
    kill_sessions-opens ids (kill_session m id) ∙ kill_session-opens m id

bury-opens : (m : StateMgr) (b : ℕ) → (bury m b).opens ≡ m.opens
unfolding bury unregister
bury-opens m b = if-opens (m.clients b).courtesy _ _ refl refl

bury_old-opens : (m : StateMgr) (o : Option ℕ) → (bury_old m o).opens ≡ m.opens
bury_old-opens m none = refl
bury_old-opens m (some b) = bury-opens m b

confirm_client-opens : (m : StateMgr) (a : ℕ) → (confirm_client m a).opens ≡ m.opens
unfolding confirm_client confirm_in
confirm_client-opens m a =
    if-opens (m.clients a).confirmed m _ refl
      (bury_old-opens m (other_than a (slot_of m a).confirmed))

arm-opens : (m : StateMgr) (a when : ℕ) → (arm_lease_check m a when).opens ≡ m.opens
unfolding arm_lease_check
arm-opens m a when = if-opens _ _ _ refl refl

renew-opens : (m : StateMgr) (a now : ℕ) → (renew m a now).opens ≡ m.opens
unfolding renew
renew-opens m a now =
    let c = m.clients a in
    let expiry = now + m.cfg.lease_seconds in
    let m' = write_client m a (record c { lease_expiry = expiry; courtesy = false }) in
    let m1 = record m' { courtesy_count = decr64 m'.courtesy_count } in
    if-opens c.courtesy (arm_lease_check m1 a expiry) m' (arm-opens m1 a expiry) refl

add_session-opens :
    (m : StateMgr) (a : ℕ) (args : CreateArgs) (nonce now : ℕ)
    → (add_session m a args nonce now).1.opens ≡ m.opens
unfolding add_session
add_session-opens m a args nonce now =
    let c = m.clients a in
    let id = session_id c.clientid m.next_session nonce in
    renew-opens (write_client m a (join_session c args.sequence id)) a now

pub confirmed-opens :
    (m : StateMgr) (a : ℕ) (args : CreateArgs) (nonce now : ℕ)
    → (add_session (confirm_client m a) a args nonce now).1.opens ≡ m.opens
confirmed-opens m a args nonce now =
    add_session-opens (confirm_client m a) a args nonce now ∙ confirm_client-opens m a

-- The states of the old incarnation are gone.
pub dropped-IsGone :
    (m n : StateMgr) (b : ℕ) (j : List ℕ)
    → IsFiled n.opens
    → has j (m.clients b).states ≡ true
    → IsGone j (drop_incarnation m n (some b))
unfolding drop_incarnation drop_old
dropped-IsGone m n b j h k =
    let c = m.clients b in
    unlink_all_ends c.states (kill_sessions n c.sessions) j
      (subst IsFiled (sym (kill_sessions-opens c.sessions n)) h) k
