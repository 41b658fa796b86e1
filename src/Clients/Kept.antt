-- ===== src/Clients/Kept.antt =====
-- What the end of states and of sessions leaves alone in src/state/state_mgr.cpp: the tables of clients
-- and, but for the count of delegations, the clients.
use lightnfs.Prelude.{
  ℕ, zero, suc, ◌≡◌, refl, ap, ◌∙◌, Bool, true, false, Option, none, some, List, [], ◌∷◌, ◌==◌,
  if◌then◌else◌, Bool-cases, inl, inr, ==_iff,
}
use lightnfs.Maps.{bytes, number, find}
use lightnfs.Opens.Types.{
  StateType, StateRec, FileStateRec, open_state, lock_state, deleg_state, file,
}
use lightnfs.Opens.Unlink.{
  file_key, close_rec, unlist_in, store_file, release_type, each, unlink_level, unlink_state,
}
use lightnfs.Sessions.Types.{Client, StateMgr}
use lightnfs.Clients.Session.{
  is_some, kill_session, kill_sessions, unlink_all, drop_old, unlink_found,
}

pub record Kept (m n : StateMgr) : Type 0 where
  pub cfg : n.cfg ≡ m.cfg
  pub registry : n.registry ≡ m.registry
  pub next_session : n.next_session ≡ m.next_session
  pub clients : (i : ℕ) → n.clients i ≡ record (m.clients i) { delegs = (n.clients i).delegs }

pub Kept-refl : (m : StateMgr) → Kept m m
Kept-refl m = record { cfg = refl; registry = refl; next_session = refl; clients = λ i. refl }

with_delegs :
    (c d e : Client) (k : ℕ)
    → d ≡ record c { delegs = d.delegs }
    → e ≡ record d { delegs = k }
    → e ≡ record c { delegs = k }
with_delegs c d e k h g = g ∙ ap (λ (x : Client). record x { delegs = k }) h

pub Kept-trans : {m n o : StateMgr} → Kept m n → Kept n o → Kept m o
Kept-trans {m} {n} {o} a b = record {
  cfg = b.cfg ∙ a.cfg;
  registry = b.registry ∙ a.registry;
  next_session = b.next_session ∙ a.next_session;
  clients = λ i.
      with_delegs (m.clients i) (n.clients i) (o.clients i) (o.clients i).delegs (a.clients i)
        (b.clients i);
}

pub if-Kept : {m x y : StateMgr} (b : Bool) → Kept m x → Kept m y → Kept m (if b then x else y)
if-Kept true h k = h
if-Kept false h k = k

close_rec-Kept : (m : StateMgr) (r : ℕ) → Kept m (close_rec m r)
unfolding close_rec
close_rec-Kept m r = record {
  cfg = refl;
  registry = refl;
  next_session = refl;
  clients = λ i. refl;
}

unlist_in-Kept :
    (m : StateMgr) (r : ℕ) (rec : StateRec) (f : Option FileStateRec)
    → Kept m (unlist_in m r rec f).1
unfolding unlist_in store_file
unlist_in-Kept m r rec none = Kept-refl m
unlist_in-Kept m r rec (some f) = record {
  cfg = refl;
  registry = refl;
  next_session = refl;
  clients = λ i. refl;
}

delegs-write :
    (m : StateMgr) (a k i : ℕ)
    → (if i == a then record (m.clients a) { delegs = k } else m.clients i) ≡ record (m.clients i) {
      delegs = (if i == a then record (m.clients a) { delegs = k } else m.clients i).delegs;
    }
delegs-write m a k i = elim (Bool-cases (i == a)) [
  | inl q ↦ rw q (rw ((==_iff i a).0 q))
  | inr q ↦ rw q
]

release_type-Kept : (m : StateMgr) (rec : StateRec) (t : StateType) → Kept m (release_type m rec t)
unfolding release_type
release_type-Kept m rec open_state = Kept-refl m
release_type-Kept m rec lock_state = record {
  cfg = refl;
  registry = refl;
  next_session = refl;
  clients = λ i. refl;
}
release_type-Kept m rec deleg_state = record {
  cfg = refl;
  registry = refl;
  next_session = refl;
  clients = λ i. delegs-write m rec.client _ i;
}

each-Kept :
    (f : StateMgr → ℕ → StateMgr) (m : StateMgr) (rs : List ℕ)
    → ((n : StateMgr) (r : ℕ) → Kept n (f n r))
    → Kept m (each f m rs)
each-Kept f m [] h = Kept-refl m
each-Kept f m (r ∷ rs) h = Kept-trans (h m r) (each-Kept f (f m r) rs h)

unlink_level-Kept :
    (k : ℕ) (m : StateMgr) (r : ℕ) (handover : Bool) → Kept m (unlink_level k m r false handover)
unfolding unlink_level
unlink_level-Kept zero m r handover = Kept-refl m
unlink_level-Kept (suc k) m r handover =
    let rec = m.opens.recs r in
    let m1 = close_rec m r in
    let f = find (file_key rec) m1.opens.files in
    let m3 = release_type (unlist_in m1 r rec f).1 rec rec.type in
    if-Kept rec.closed (Kept-refl m) (
      Kept-trans (close_rec-Kept m r) (
        Kept-trans (unlist_in-Kept m1 r rec f) (
          Kept-trans (release_type-Kept (unlist_in m1 r rec f).1 rec rec.type) (
            each-Kept (λ n l. unlink_level k n l false handover) m3 (unlist_in m1 r rec f).0
              (λ n l. unlink_level-Kept k n l handover)))))

pub unlink_state-Kept :
    (m : StateMgr) (r : ℕ) (handover : Bool) → Kept m (unlink_state m r false handover)
unfolding unlink_state
unlink_state-Kept m r handover = unlink_level-Kept 2 m r handover

unlink_found-Kept : (m : StateMgr) (r : Option ℕ) → Kept m (unlink_found m r)
unlink_found-Kept m none = Kept-refl m
unlink_found-Kept m (some r) = unlink_state-Kept m r false

pub unlink_all-Kept : (others : List (List ℕ)) (m : StateMgr) → Kept m (unlink_all m others)
unfolding unlink_all
unlink_all-Kept [] m = Kept-refl m
unlink_all-Kept (other ∷ others) m =
    let first = find other m.opens.table in
    Kept-trans (unlink_found-Kept m first) (unlink_all-Kept others (unlink_found m first))

kill_session-Kept : (m : StateMgr) (id : List ℕ) → Kept m (kill_session m id)
unfolding kill_session
kill_session-Kept m id =
    if-Kept (is_some (find id m.sessions))
      (record { cfg = refl; registry = refl; next_session = refl; clients = λ i. refl })
      (Kept-refl m)

pub kill_sessions-Kept : (ids : List (List ℕ)) (m : StateMgr) → Kept m (kill_sessions m ids)
unfolding kill_sessions
kill_sessions-Kept [] m = Kept-refl m
kill_sessions-Kept (id ∷ ids) m =
    Kept-trans (kill_session-Kept m id) (kill_sessions-Kept ids (kill_session m id))

pub drop_old-Kept : (m : StateMgr) (c : Client) → Kept m (drop_old m c)
unfolding drop_old
drop_old-Kept m c =
    Kept-trans (kill_sessions-Kept c.sessions m)
      (unlink_all-Kept c.states (kill_sessions m c.sessions))
