-- ===== src/Clients/Kills.antt =====
-- What the end of states and of sessions does to the table of sessions in src/state/state_mgr.cpp.
use lightnfs.Prelude.{
  ℕ, zero, suc, ◌≡◌, refl, ap, ◌∙◌, Bool, true, false, ◌||◌, Option, none, some, List, [], ◌∷◌,
  if◌then◌else◌, Bool-cases, inl, inr, bytes_eq, bytes_eq-eq,
}
use lightnfs.Maps.{bytes, number, find, find-erase, has}
use lightnfs.Opens.Types.{
  StateType, StateRec, FileStateRec, open_state, lock_state, deleg_state, file,
}
use lightnfs.Opens.Unlink.{
  file_key, close_rec, unlist_in, store_file, release_type, each, unlink_level, unlink_state,
}
use lightnfs.Sessions.Types.{Session, StateMgr}
use lightnfs.Clients.Session.{is_some, kill_session, kill_sessions, unlink_all, unlink_found}

-- Unlinking states leaves the sessions alone.
if-sessions :
    {l : List (List ℕ × Session)} (b : Bool) (x y : StateMgr)
    → x.sessions ≡ l
    → y.sessions ≡ l
    → (if b then x else y).sessions ≡ l
if-sessions true x y p q = p
if-sessions false x y p q = q

unlist_in-sessions :
    (m : StateMgr) (r : ℕ) (rec : StateRec) (f : Option FileStateRec)
    → (unlist_in m r rec f).1.sessions ≡ m.sessions
unfolding unlist_in store_file
unlist_in-sessions m r rec none = refl
unlist_in-sessions m r rec (some f) = refl

release_type-sessions :
    (m : StateMgr) (rec : StateRec) (t : StateType) → (release_type m rec t).sessions ≡ m.sessions
unfolding release_type
release_type-sessions m rec open_state = refl
release_type-sessions m rec lock_state = refl
release_type-sessions m rec deleg_state = refl

each-sessions :
    (f : StateMgr → ℕ → StateMgr) (rs : List ℕ) (m : StateMgr)
    → ((n : StateMgr) (r : ℕ) → (f n r).sessions ≡ n.sessions)
    → (each f m rs).sessions ≡ m.sessions
each-sessions f [] m h = refl
each-sessions f (r ∷ rs) m h = each-sessions f rs (f m r) h ∙ h m r

unlink_level-sessions :
    (k : ℕ) (m : StateMgr) (r : ℕ) (handover : Bool)
    → (unlink_level k m r false handover).sessions ≡ m.sessions
unfolding unlink_level close_rec
unlink_level-sessions zero m r handover = refl
unlink_level-sessions (suc k) m r handover =
    let rec = m.opens.recs r in
    let m1 = close_rec m r in
    let f = find (file_key rec) m1.opens.files in
    let m2 = (unlist_in m1 r rec f).1 in
    if-sessions rec.closed m _ refl (
      each-sessions (λ n l. unlink_level k n l false handover) (unlist_in m1 r rec f).0
        (release_type m2 rec rec.type) (λ n l. unlink_level-sessions k n l handover)
      ∙ (release_type-sessions m2 rec rec.type ∙ unlist_in-sessions m1 r rec f))

unlink_found-sessions : (m : StateMgr) (r : Option ℕ) → (unlink_found m r).sessions ≡ m.sessions
unfolding unlink_state
unlink_found-sessions m none = refl
unlink_found-sessions m (some r) = unlink_level-sessions 2 m r false

pub unlink_all-sessions :
    (others : List (List ℕ)) (m : StateMgr) → (unlink_all m others).sessions ≡ m.sessions
unfolding unlink_all
unlink_all-sessions [] m = refl
unlink_all-sessions (other ∷ others) m =
    let first = find other m.opens.table in
    unlink_all-sessions others (unlink_found m first) ∙ unlink_found-sessions m first

is_some-none : (x : Option Session) → is_some x ≡ false → x ≡ none
is_some-none none h = refl
is_some-none (some x) h = cc

gone_already : (b : Bool) (x : Option Session) → (b ≡ true → x ≡ none) → x ≡ (if b then none else x)
gone_already true x h = h refl
gone_already false x h = refl

either_gone :
    (b d : Bool) (x : Option Session)
    → (if d then none else (if b then none else x)) ≡ (if b || d then none else x)
either_gone true true x = refl
either_gone true false x = refl
either_gone false true x = refl
either_gone false false x = refl

kill_session-find :
    (m : StateMgr) (id j : List ℕ)
    → find j (kill_session m id).sessions ≡ (if bytes_eq id j then none else find j m.sessions)
unfolding kill_session
kill_session-find m id j = elim (Bool-cases (is_some (find id m.sessions))) [
  | inl q ↦ rw q (find-erase j id m.sessions)
  | inr q ↦ rw q (gone_already _ _ (λ e. rw (← bytes_eq-eq id j e) (is_some-none _ q)))
]

pub kill_sessions-find :
    (ids : List (List ℕ)) (m : StateMgr) (j : List ℕ)
    → find j (kill_sessions m ids).sessions ≡ (if has j ids then none else find j m.sessions)
unfolding kill_sessions has
kill_sessions-find [] m j = refl
kill_sessions-find (id ∷ ids) m j =
    kill_sessions-find ids (kill_session m id) j
    ∙ (ap (λ x. if has j ids then none else x) (kill_session-find m id j)
        ∙ either_gone (bytes_eq id j) (has j ids) (find j m.sessions))
