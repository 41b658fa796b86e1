-- ===== src/Clients/Created.antt =====
-- CREATE_SESSION of src/state/state_mgr.cpp: its repetition, the reboot of a client, and the first
-- request on the new session.
use mathlib.Core.Path.{subst}
use lightnfs.Prelude.{
  ℕ, ◌≡◌, refl, sym, ap, ◌∙◌, Bool, true, false, not, ◌&&◌, Option, none, some, List, ◌==◌, ==_iff,
  ==_refl, bytes_eq, if◌then◌else◌, Bool-cases, inl, inr, arith,
}
use lightnfs.Maps.{bytes, number, find}
use lightnfs.Config.{Config}
use lightnfs.Nfs4.Status.{Status}
use lightnfs.Sessions.Types.{Client, StateMgr, next32}
use lightnfs.Sessions.Sequence.{write_client}
use lightnfs.Clients.Exchange.{find_client}
use lightnfs.Clients.Session.{
  CreateArgs, CreateSessionResult, create_refused, create_found, create_for, create_session,
  grant_session, confirm_for, cache_reply, confirm_create_session, persist_client,
}
use lightnfs.Clients.View.{see, view, IsIn, IsConsistent, Moves-IsConsistent}
use lightnfs.Clients.Confirms.{cache_reply-view, find_client-IsIn, grant_session-Moves}
use lightnfs.Clients.Granted.{
  Core, core, if-core, if_true, if_false, write-at, grant_session-core, grant_session-cfg,
  grant_session-IsIn, IsIn-find,
}

-- The request is executed, and not refused or answered from the cache.
abbrev pub IsExecuted : CreateSessionResult → Type 0
IsExecuted out = (out.status ≡ Status.ok) × (out.replay ≡ false)

-- The client that is found, the guards that let the request through, and the session that it gets.
pub record IsGranted (m : StateMgr) (args : CreateArgs) (nonce now a : ℕ) : Type 0 where
  pub found : find_client m args.clientid ≡ some a
  pub expected : args.sequence ≡ (m.clients a).cs_sequence
  pub granted : create_session m args nonce now ≡ grant_session m a args nonce now

refused_found : {s : Status} → ¬ (s ≡ Status.ok) → IsExecuted (create_refused s) → ⊥
refused_found h e = h e.0

abbrev pub again : List ℕ → CreateSessionResult
again r = record (create_refused Status.ok) { replay = true; cached = r }

replayed_not : (out : CreateSessionResult) → out.replay ≡ true → IsExecuted out → ⊥
replayed_not out e h = cc (e, h.1)

create_found-granted :
    (m : StateMgr) (a : ℕ) (args : CreateArgs) (nonce now : ℕ)
    → IsExecuted (create_found m a args nonce now).0
    → (args.sequence ≡ (m.clients a).cs_sequence)
      × (create_found m a args nonce now ≡ grant_session m a args nonce now)
unfolding create_found
create_found-granted m a args nonce now h =
    let x = m.clients a in
    elim (Bool-cases (not x.confirmed && not (bytes_eq x.principal args.principal))) [
      | inl p ↦ absurd (refused_found (λ e. cc) (rw p at h))
      | inr p ↦ elim (Bool-cases (next32 args.sequence == x.cs_sequence && x.confirmed)) [
        | inl q ↦ absurd (replayed_not (again x.cs_cached_reply) refl (rw (p, q) at h))
        | inr q ↦ elim (Bool-cases (args.sequence == x.cs_sequence)) [
          | inl r ↦ ((==_iff _ _).0 r, rw (p, q, r))
          | inr r ↦ absurd (refused_found (λ e. cc) (rw (p, q, r) at h))
        ]
      ]
    ]

create_for-granted :
    (m : StateMgr) (o : Option ℕ) (args : CreateArgs) (nonce now : ℕ)
    → IsExecuted (create_for m o args nonce now).0
    → (a : ℕ) × (o ≡ some a)
      × (args.sequence ≡ (m.clients a).cs_sequence)
      × (create_for m o args nonce now ≡ grant_session m a args nonce now)
create_for-granted m none args nonce now h = absurd (refused_found (λ e. cc) h)
create_for-granted m (some a) args nonce now h =
    let (expected, granted) = create_found-granted m a args nonce now h in
    (a, refl, expected, granted)

pub create_session-IsGranted :
    (m : StateMgr) (args : CreateArgs) (nonce now : ℕ)
    → IsExecuted (create_session m args nonce now).0
    → (a : ℕ) × IsGranted m args nonce now a
unfolding create_session
create_session-IsGranted m args nonce now h =
    let (a, found, expected, granted) =
      create_for-granted m (find_client m args.clientid) args nonce now h in
    (a, record { found = found; expected = expected; granted = granted })

module _ (m : StateMgr) (args : CreateArgs) (nonce now a : ℕ) (c : IsConsistent (view m))
    (g : IsGranted m args nonce now a) where
  -- The client is still found by its id.
  pub granted-found : find_client (grant_session m a args nonce now).1 args.clientid ≡ some a
  granted-found =
      let (isin, named) = find_client-IsIn m args.clientid a c g.found in
      IsIn-find m (grant_session m a args nonce now).1 args.clientid a g.found
        (grant_session-cfg m a args nonce now) (grant_session-IsIn m a args nonce now c isin)
        (ap (λ (x : Core). x.clientid) (grant_session-core m a args nonce now) ∙ named)

  granted-IsConsistent : IsConsistent (view (grant_session m a args nonce now).1)
  granted-IsConsistent =
      let (isin, named) = find_client-IsIn m args.clientid a c g.found in
      Moves-IsConsistent c (grant_session-Moves m a args nonce now c isin)

-- The reply of a request that was executed is kept, whatever is persisted.
cache_reply-core :
    (m : StateMgr) (a : ℕ) (reply : List ℕ)
    → core ((cache_reply m a reply).clients a)
      ≡ record (core (m.clients a)) { cs_cached_reply = reply }
unfolding cache_reply persist_client
cache_reply-core m a reply =
    let c : Client = record (m.clients a) { cs_cached_reply = reply; persisted = true } in
    let m' = write_client m a c in
    let written = ap core (write-at m a c) in
    if-core (m.clients a).persisted m' _ a written
      (if-core m.cfg.per_fsid_reclaim m' _ a written written)

if-cfg :
    {k : Config} (b : Bool) (x y : StateMgr) → x.cfg ≡ k → y.cfg ≡ k → (if b then x else y).cfg ≡ k
if-cfg true x y p q = p
if-cfg false x y p q = q

cache_reply-cfg : (m : StateMgr) (a : ℕ) (reply : List ℕ) → (cache_reply m a reply).cfg ≡ m.cfg
unfolding cache_reply persist_client
cache_reply-cfg m a reply =
    if-cfg (m.clients a).persisted _ _ refl (if-cfg m.cfg.per_fsid_reclaim _ _ refl refl)

confirm-cached :
    (m : StateMgr) (id a : ℕ) (reply : List ℕ)
    → IsConsistent (view m)
    → find_client m id ≡ some a
    → confirm_create_session m id reply ≡ cache_reply m a reply
unfolding confirm_create_session confirm_for view see
confirm-cached m id a reply c h =
    let (isin, named) = find_client-IsIn m id a c h in
    let here : find id m.registry.by_id ≡ some a =
      c.by_id id ∙ (ap (λ (j : ℕ). find j m.registry.client_idx) (sym named) ∙ isin) in
    rw (h, here)

answered_found :
    (m : StateMgr) (args : CreateArgs) (a nonce now : ℕ)
    → (m.clients a).confirmed ≡ true
    → (m.clients a).cs_sequence ≡ next32 args.sequence
    → create_found m a args nonce now ≡ (again (m.clients a).cs_cached_reply, m)
unfolding create_found
answered_found m args a nonce now p q =
    let x = m.clients a in
    let may : (not x.confirmed && not (bytes_eq x.principal args.principal)) ≡ false =
      ground arith in
    let known : (next32 args.sequence == x.cs_sequence && x.confirmed) ≡ true =
      rw (p, q) (ground (arith, ==_refl (next32 args.sequence))) in
    if_false _ _ _ may ∙ if_true _ _ _ known

-- A client that has had its answer gets it again.
answered :
    (m : StateMgr) (args : CreateArgs) (a nonce now : ℕ)
    → find_client m args.clientid ≡ some a
    → (m.clients a).confirmed ≡ true
    → (m.clients a).cs_sequence ≡ next32 args.sequence
    → create_session m args nonce now ≡ (again (m.clients a).cs_cached_reply, m)
unfolding create_session
answered m args a nonce now h p q = rw h (answered_found m args a nonce now p q)

-- CREATE_SESSION is executed once. When a request has been executed and its reply kept, the same
-- request, at any later time, gets that reply again and changes nothing. The tables of clients are
-- consistent before the request.
pub create_session-replay :
    (m : StateMgr) (args : CreateArgs) (nonce now : ℕ) (reply : List ℕ) (nonce' now' : ℕ)
    → IsConsistent (view m)
    → IsExecuted (create_session m args nonce now).0
    → create_session
        (confirm_create_session (create_session m args nonce now).1 args.clientid reply)
        args
        nonce'
        now'
      ≡ (
        again reply,
        confirm_create_session (create_session m args nonce now).1 args.clientid reply,
      )
create_session-replay m args nonce now reply nonce' now' c h =
    let (a, g) = create_session-IsGranted m args nonce now h in
    let n = (grant_session m a args nonce now).1 in
    let o = cache_reply n a reply in
    let found = granted-found m args nonce now a c g in
    let known = granted-IsConsistent m args nonce now a c g in
    let cached = confirm-cached n args.clientid a reply known found in
    let after : core (o.clients a) ≡ record (core (m.clients a)) {
      confirmed = true;
      cs_sequence = next32 args.sequence;
      cs_cached_reply = reply;
    } =
      cache_reply-core n a reply
      ∙ ap (λ (x : Core). record x { cs_cached_reply = reply })
          (grant_session-core m a args nonce now) in
    let (isin, named) = find_client-IsIn n args.clientid a known found in
    let still =
      IsIn-find n o args.clientid a found (cache_reply-cfg n a reply)
        (subst (λ v. IsIn v a) (sym (cache_reply-view n a reply)) isin)
        (ap (λ (x : Core). x.clientid) (cache_reply-core n a reply) ∙ named) in
    rw (g.granted, cached)
      (answered o args a nonce' now' still (ap (λ (x : Core). x.confirmed) after)
          (ap (λ (x : Core). x.cs_sequence) after)
        ∙ ap (λ (r : List ℕ). (again r, o)) (ap (λ (x : Core). x.cs_cached_reply) after))
