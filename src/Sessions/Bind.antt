-- ===== src/Sessions/Bind.antt =====
-- `bind_conn` and `destroy_session` of src/state/state_mgr.cpp.
use lightnfs.Prelude.{
  ℕ, Bool, false, ◌||◌, not, Option, none, some, List, [], ◌∷◌, ◌==◌, if◌then◌else◌, bytes_eq,
}
use lightnfs.Nfs4.Status.{Status}
use lightnfs.Maps.{bytes, find, put, erase}
use lightnfs.Sessions.Types.{Session, StateMgr, decr64}
use lightnfs.Sessions.Sequence.{write_client, insert_conn}

unfoldable pub bind_found : StateMgr → List ℕ → ℕ → Option Session → Status × StateMgr
unfolding put
bind_found m id conn none = (Status.badsession, m)
bind_found m id conn (some s) = (
  Status.ok,
  record m {
    sessions = put id (record s { bound_conns = insert_conn conn s.bound_conns }) m.sessions;
  },
)

unfoldable pub bind_conn : StateMgr → List ℕ → ℕ → Status × StateMgr
unfolding find bind_found
bind_conn m id conn = bind_found m id conn (find id m.sessions)

abbrev pub contains : List ℕ → ℕ → Bool
contains [] c = false
contains (d ∷ conns) c = d == c || contains conns c

abbrev pub without_id : List ℕ → List (List ℕ) → List (List ℕ)
without_id id [] = []
without_id id (j ∷ ids) = let rest = without_id id ids in if bytes_eq j id then rest else j ∷ rest

-- Waiting duplicates are woken: each runs its round again, and finds no session.
unfoldable pub destroy_found : StateMgr → List ℕ → ℕ → Option Session → Status × StateMgr
unfolding erase
destroy_found m id conn none = (Status.badsession, m)
destroy_found m id conn (some s) =
    if not (contains s.bound_conns conn)
    then (Status.conn_not_bound, m)
    else let c = m.clients s.client in
      let m' = record m {
        sessions = erase id m.sessions;
        session_count = decr64 m.session_count;
      } in
      (Status.ok, write_client m' s.client (record c { sessions = without_id id c.sessions }))

unfoldable pub destroy_session : StateMgr → List ℕ → ℕ → Status × StateMgr
unfolding find destroy_found
destroy_session m id conn = destroy_found m id conn (find id m.sessions)
