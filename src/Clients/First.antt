-- ===== src/Clients/First.antt =====
-- The first request on a new session of src/state/state_mgr.cpp: CREATE_SESSION, then SEQUENCE.
use mathlib.Core.Path.{subst}
use lightnfs.Prelude.{
  ℕ, zero, suc, ◌<◌, ◌≡◌, refl, sym, ap, ◌∙◌, Bool, true, false, Option, none, some, List, [],
  arith, replicate, get_elem?, bytes_eq_refl,
}
use lightnfs.Maps.{bytes, find, has, find-put}
use lightnfs.Sessions.Types.{StateMgr}
use lightnfs.Sessions.Sequence.{sequence_begin}
use lightnfs.Sessions.Slots.{is_claim}
use lightnfs.Sessions.Admits.{IsReady, sequence_begin-claim_iff}
use lightnfs.Clients.Exchange.{find_client}
use lightnfs.Clients.Session.{
  CreateArgs, create_session, grant_session, confirm_client, old_incarnation, drop_incarnation,
  drop_old, add_session, kill_sessions, new_session, session_id, empty_slot,
}
use lightnfs.Clients.Kills.{kill_sessions-find, unlink_all-sessions}
use lightnfs.Clients.Reboot.{one_found}
use lightnfs.Clients.Granted.{Core, grant_session-core}
use lightnfs.Clients.Created.{IsExecuted, IsGranted, create_session-IsGranted}

-- The sessions that the old incarnation holds.
abbrev pub held : StateMgr → Option ℕ → List (List ℕ)
held m none = []
held m (some b) = (m.clients b).sessions

drop_incarnation-find :
    (m n : StateMgr) (old : Option ℕ) (id : List ℕ)
    → has id (held m old) ≡ false
    → find id (drop_incarnation m n old).sessions ≡ find id n.sessions
unfolding drop_incarnation drop_old
drop_incarnation-find m n none id h = refl
drop_incarnation-find m n (some b) id h =
    let c = m.clients b in
    ap (find id) (unlink_all-sessions c.states (kill_sessions n c.sessions))
    ∙ (kill_sessions-find c.sessions n id ∙ rw h)

add_session-find :
    (m : StateMgr) (a : ℕ) (args : CreateArgs) (nonce now : ℕ)
    → find
        (session_id (m.clients a).clientid m.next_session nonce)
        (add_session m a args nonce now).1.sessions
      ≡ some (new_session m a args)
unfolding add_session
add_session-find m a args nonce now =
    let id = session_id (m.clients a).clientid m.next_session nonce in
    find-put id id (new_session m a args) _ ∙ rw (bytes_eq_refl id)

-- The new session is in the table, under the id of the answer.
grant_session-find :
    (m : StateMgr) (a : ℕ) (args : CreateArgs) (nonce now : ℕ)
    → has (grant_session m a args nonce now).0.sessionid (held m (old_incarnation m a)) ≡ false
    → find
        (grant_session m a args nonce now).0.sessionid
        (grant_session m a args nonce now).1.sessions
      ≡ some (new_session (confirm_client m a) a args)
unfolding grant_session
grant_session-find m a args nonce now h =
    let m1 = confirm_client m a in
    drop_incarnation-find m (add_session m1 a args nonce now).1 (old_incarnation m a)
      (add_session m1 a args nonce now).0.sessionid h
    ∙ added m1
  where
    added :
        (m1 : StateMgr)
        → find
            (add_session m1 a args nonce now).0.sessionid
            (add_session m1 a args nonce now).1.sessions
          ≡ some (new_session m1 a args)
    added m1 = add_session-find m1 a args nonce now

get_elem?-replicate : {A : Type 0} (n i : ℕ) (x : A) → i < n → get_elem? (replicate n x) i ≡ some x
get_elem?-replicate zero i x h = elim h [ ]
get_elem?-replicate (suc n) zero x h = refl
get_elem?-replicate (suc n) (suc i) x h = get_elem?-replicate n i x (omega arith)

new_session-slots :
    (m : StateMgr) (a : ℕ) (args : CreateArgs)
    → (new_session m a args).slots ≡ replicate (new_session m a args).slot_count empty_slot
unfolding new_session
new_session-slots m a args = refl

-- What the answer says of the slots is what the session has.
grant_session-slot_count :
    (m : StateMgr) (a : ℕ) (args : CreateArgs) (nonce now : ℕ)
    → (grant_session m a args nonce now).0.fore.max_requests
      ≡ (new_session (confirm_client m a) a args).slot_count
unfolding grant_session add_session new_session
grant_session-slot_count m a args nonce now = refl

new_session-client : (m : StateMgr) (a : ℕ) (args : CreateArgs) → (new_session m a args).client ≡ a
unfolding new_session
new_session-client m a args = refl

-- Every slot of the new session waits for its first request.
granted-IsReady :
    (m : StateMgr) (args : CreateArgs) (nonce now a i highest : ℕ)
    → (m.clients a).expired ≡ false
    → has (grant_session m a args nonce now).0.sessionid (held m (old_incarnation m a)) ≡ false
    → i < (grant_session m a args nonce now).0.fore.max_requests
    → highest < (grant_session m a args nonce now).0.fore.max_requests
    → IsReady
        (grant_session m a args nonce now).1
        (grant_session m a args nonce now).0.sessionid
        i
        1
        highest
granted-IsReady m args nonce now a i highest x k lo hi =
    let n = grant_session m a args nonce now in
    let s = new_session (confirm_client m a) a args in
    let count = grant_session-slot_count m a args nonce now in
    let alive : (n.1.clients s.client).expired ≡ false =
      ap (λ (j : ℕ). (n.1.clients j).expired) (new_session-client (confirm_client m a) a args)
      ∙ (ap (λ (y : Core). y.expired) (grant_session-core m a args nonce now) ∙ x) in
    let lo' : i < s.slot_count = subst (λ (c : ℕ). i < c) count lo in
    let hi' : highest < s.slot_count = subst (λ (c : ℕ). highest < c) count hi in
    let waits : get_elem? s.slots i ≡ some empty_slot =
      ap (λ l. get_elem? l i) (new_session-slots (confirm_client m a) a args)
      ∙ get_elem?-replicate s.slot_count i empty_slot lo' in
    (s, grant_session-find m a args nonce now k, alive, lo', hi', (empty_slot, waits, refl, refl))

-- The first request on any slot of a new session is executed. A CREATE_SESSION has been executed for a
-- client that has not expired, and its session id is none of its owner's old incarnation. Then SEQUENCE
-- with the id of the answer and sequence number 1, on a slot below the number of slots of the answer and
-- with a highest slot below it, tells its caller to execute the request.
pub create_session-admits :
    (m : StateMgr) (args : CreateArgs) (nonce now a i highest conn : ℕ) (alive : Bool) (now' : ℕ)
    → find_client m args.clientid ≡ some a
    → (m.clients a).expired ≡ false
    → IsExecuted (create_session m args nonce now).0
    → has (create_session m args nonce now).0.sessionid (held m (old_incarnation m a)) ≡ false
    → i < (create_session m args nonce now).0.fore.max_requests
    → highest < (create_session m args nonce now).0.fore.max_requests
    → is_claim
        (sequence_begin
          (create_session m args nonce now).1
          (create_session m args nonce now).0.sessionid
          i
          1
          highest
          conn
          alive
          now').0
      ≡ true
create_session-admits m args nonce now a i highest conn alive now' f x e k lo hi =
    let (a', g) = create_session-IsGranted m args nonce now e in
    let g' : IsGranted m args nonce now a =
      subst (IsGranted m args nonce now) (one_found (sym g.found ∙ f)) g in
    let n = create_session m args nonce now in
    let same = g'.granted in
    let ready =
      granted-IsReady m args nonce now a i highest x (rw same at k) (rw same at lo)
        (rw same at hi) in
    (sequence_begin-claim_iff n.1 n.0.sessionid i 1 highest conn alive now').1 (rw same ready)
