-- ===== src/Opens/Closed.antt =====
-- CLOSE of src/state/state_mgr.cpp: what becomes of the stateid.
use mathlib.Core.Path.{subst}
use lightnfs.Prelude.{
  ℕ, zero, suc, ◌≡◌, refl, sym, ap, ◌∙◌, Bool, true, false, ◌&&◌, not, Option, none, some, List, [],
  ◌∷◌, ◌==◌, bytes_eq_refl, if◌then◌else◌, Bool-cases, inl, inr, arith,
}
use lightnfs.Maps.{bytes, number, find, find-erase}
use lightnfs.Nfs4.Status.{Status}
use lightnfs.Locks.Types.{FileKey}
use lightnfs.Sessions.Types.{StateMgr}
use lightnfs.Opens.Types.{
  StateType, StateRec, FileStateRec, States, file, open_state, lock_state, deleg_state,
}
use lightnfs.Opens.Unlink.{
  close_rec, unlist_in, store_file, release_type, untrack, untrack_state, each, unlink_level,
  unlink_state, file_key,
}
use lightnfs.Opens.Open.{Stateid}
use lightnfs.Opens.Stateids.{
  refused, state, found_in, find_state, is_special, is_current, is_ok, close_found, close_state,
  is_elsewhere, check_seqid,
}

-- The stateid is not in the table.
abbrev pub IsGone : List ℕ → StateMgr → Type 0
IsGone j m = find j m.opens.table ≡ none

if-IsGone :
    (j : List ℕ) (b : Bool) (x y : StateMgr)
    → IsGone j x
    → IsGone j y
    → IsGone j (if b then x else y)
if-IsGone j true x y h k = h
if-IsGone j false x y h k = k

if_none : {A : Type 0} (b : Bool) (x : Option A) → x ≡ none → (if b then none else x) ≡ none
if_none true x h = refl
if_none false x h = h

close_rec-IsGone : (m : StateMgr) (r : ℕ) (j : List ℕ) → IsGone j m → IsGone j (close_rec m r)
unfolding close_rec
close_rec-IsGone m r j h = find-erase j (m.opens.recs r).other m.opens.table ∙ if_none _ _ h

close_rec_ends : (m : StateMgr) (r : ℕ) → IsGone (m.opens.recs r).other (close_rec m r)
unfolding close_rec
close_rec_ends m r =
    let j = (m.opens.recs r).other in
    find-erase j j m.opens.table
    ∙ ap (λ b. if b then none else find j m.opens.table) (bytes_eq_refl j)

same_table : (b : Bool) (x y : States) → x.table ≡ y.table → (if b then x else y).table ≡ y.table
same_table true x y h = h
same_table false x y h = refl

unlist_in-IsGone :
    (m : StateMgr) (r : ℕ) (rec : StateRec) (f : Option FileStateRec) (j : List ℕ)
    → IsGone j m
    → IsGone j (unlist_in m r rec f).1
unfolding unlist_in store_file
unlist_in-IsGone m r rec none j h = h
unlist_in-IsGone m r rec (some f) j h = ap (find j) (same_table _ _ _ refl) ∙ h

release_type-IsGone :
    (m : StateMgr) (rec : StateRec) (t : StateType) (j : List ℕ)
    → IsGone j m
    → IsGone j (release_type m rec t)
unfolding release_type
release_type-IsGone m rec open_state j h = h
release_type-IsGone m rec lock_state j h = h
release_type-IsGone m rec deleg_state j h = h

each-IsGone :
    (f : StateMgr → ℕ → StateMgr) (rs : List ℕ) (m : StateMgr) (j : List ℕ)
    → ((n : StateMgr) (r : ℕ) → IsGone j n → IsGone j (f n r))
    → IsGone j m
    → IsGone j (each f m rs)
each-IsGone f [] m j s h = h
each-IsGone f (r ∷ rs) m j s h = each-IsGone f rs (f m r) j s (s m r h)

untrack-IsGone :
    (m : StateMgr) (rec : StateRec) (handover : Bool) (j : List ℕ)
    → IsGone j m
    → IsGone j (untrack m rec handover)
unfolding untrack
untrack-IsGone m rec handover j h =
    let (last, c) = untrack_state (m.clients rec.client) rec in
    if-IsGone j (last && m.cfg.per_fsid_reclaim && not handover) _ _ h h

-- What follows the removal of a stateid from the table.
after_close :
    (k : ℕ) (m : StateMgr) (r : ℕ) (by_client handover : Bool) (j : List ℕ)
    → ((n : StateMgr) (l : ℕ) → IsGone j n → IsGone j (unlink_level k n l by_client handover))
    → IsGone j (if (m.opens.recs r).closed then m else close_rec m r)
    → IsGone j (unlink_level (suc k) m r by_client handover)
unfolding unlink_level
after_close k m r by_client handover j s h =
    let rec = m.opens.recs r in
    let m1 = close_rec m r in
    let f = find (file_key rec) m1.opens.files in
    let m2 = (unlist_in m1 r rec f).1 in
    let locks = (unlist_in m1 r rec f).0 in
    let m3 =
      each (λ m' l. unlink_level k m' l by_client handover) (release_type m2 rec rec.type) locks in
    let cleared : IsGone j m1 → IsGone j m3 = λ g.
      each-IsGone _ locks (release_type m2 rec rec.type) j s
        (release_type-IsGone m2 rec rec.type j (unlist_in-IsGone m1 r rec f j g)) in
    elim (Bool-cases rec.closed) [
      | inl q ↦ rw q (rw q at h)
      | inr q ↦
          let g = cleared (rw q at h) in
          rw q (
            if-IsGone j by_client (untrack m3 rec handover) m3 (untrack-IsGone m3 rec handover j g)
              g)
    ]

no_level-IsGone :
    (by_client handover : Bool) (j : List ℕ) (m : StateMgr) (r : ℕ)
    → IsGone j m
    → IsGone j (unlink_level zero m r by_client handover)
unfolding unlink_level
no_level-IsGone by_client handover j m r h = h

pub unlink_level-IsGone :
    (k : ℕ) (by_client handover : Bool) (j : List ℕ) (m : StateMgr) (r : ℕ)
    → IsGone j m
    → IsGone j (unlink_level k m r by_client handover)
unlink_level-IsGone zero by_client handover j m r h = no_level-IsGone by_client handover j m r h
unlink_level-IsGone (suc k) by_client handover j m r h =
    after_close k m r by_client handover j (unlink_level-IsGone k by_client handover j)
      (if-IsGone j (m.opens.recs r).closed m (close_rec m r) h (close_rec-IsGone m r j h))

pub unlink_state-IsGone :
    (m : StateMgr) (r : ℕ) (by_client handover : Bool)
    → (m.opens.recs r).closed ≡ false
    → IsGone (m.opens.recs r).other (unlink_state m r by_client handover)
unfolding unlink_state
unlink_state-IsGone m r by_client handover h =
    let j = (m.opens.recs r).other in
    after_close 1 m r by_client handover j (unlink_level-IsGone 1 by_client handover j)
      (rw h (close_rec_ends m r))

bad_not : Status.bad_stateid ≡ Status.ok → ⊥
bad_not h = cc

not_both : (s : Status) → s ≡ Status.ok → is_ok s ≡ false → ⊥
not_both s h k = cc (rw h at k)

close_found-ok :
    (m : StateMgr) (sid : Stateid) (clientid : ℕ) (expect : Option FileKey) (r : ℕ)
    → (close_found m sid clientid expect (state r)).0 ≡ Status.ok
    → (close_found m sid clientid expect (state r)).2 ≡ unlink_state m r true false
unfolding close_found
close_found-ok m sid clientid expect r h =
    let rec = m.opens.recs r in
    let c = m.clients rec.client in
    let seq = check_seqid sid.seqid rec.seqid in
    elim (Bool-cases (not (clientid == 0) && not (c.clientid == clientid))) [
      | inl q ↦ absurd (bad_not (rw q at h))
      | inr q ↦ elim (Bool-cases (is_elsewhere expect rec)) [
        | inl q1 ↦ absurd (bad_not (rw (q, q1) at h))
        | inr q1 ↦ elim (Bool-cases (not (clientid == 0) && not (is_ok seq))) [
          | inl q2 ↦ absurd (not_both seq (rw (q, q1, q2) at h) (ground (arith, q2)))
          | inr q2 ↦ rw (q, q1, q2)
        ]
      ]
    ]

found_none : (r : ℕ) → found_in none ≡ state r → ⊥
found_none r h = cc

-- Under a stateid that is not in the table no state is found.
gone-found :
    (m : StateMgr) (sid : Stateid) (r : ℕ) → IsGone sid.other m → find_state m sid ≡ state r → ⊥
unfolding find_state
gone-found m sid r g h = elim (Bool-cases (is_special sid)) [
  | inl q ↦ absurd (refused_not (rw q at h))
  | inr q ↦ elim (Bool-cases (is_current m sid)) [
    | inl q1 ↦ found_none r (rw (q, q1, g) at h)
    | inr q1 ↦ absurd (refused_not (rw (q, q1) at h))
  ]
]
  where
    refused_not : {s : Status} → refused s ≡ state r → ⊥
    refused_not e = cc

-- CLOSE ends a stateid. The state that it finds stands in the table under its own id and is not closed
-- yet. If the call succeeds, then no operation finds a state under that stateid afterwards, whatever
-- its version.
pub close_state-gone :
    (m : StateMgr) (sid : Stateid) (clientid : ℕ) (expect : Option FileKey) (r seqid r' : ℕ)
    → find_state m sid ≡ state r
    → (m.opens.recs r).other ≡ sid.other
    → (m.opens.recs r).closed ≡ false
    → (close_state m sid clientid expect).0 ≡ Status.ok
    → ¬ (find_state (close_state m sid clientid expect).2 (record sid { seqid = seqid }) ≡ state r')
unfolding close_state
close_state-gone m sid clientid expect r seqid r' f o c h k =
    let out = close_found-ok m sid clientid expect r (rw f at h) in
    let gone =
      subst (λ j. IsGone j (unlink_state m r true false)) o
        (unlink_state-IsGone m r true false c) in
    gone-found (close_state m sid clientid expect).2 (record sid { seqid = seqid }) r'
      (rw f (subst (IsGone sid.other) (sym out) gone)) k
