-- ===== src/Opens/Filed.antt =====
-- The table of states of src/state/state_mgr.cpp and the records it leads to: the lemmas for unlink_state.
use lightnfs.Prelude.{
  ℕ, zero, suc, ◌≡◌, refl, sym, ap, ◌∙◌, Bool, true, false, ◌&&◌, not, Option, none, some, List, [],
  ◌∷◌, ◌==◌, ==_iff, bytes_eq, bytes_eq_refl, if◌then◌else◌, Bool-cases, inl, inr,
}
use mathlib.Core.Path.{subst}
use lightnfs.Maps.{bytes, number, find, find-erase}
use lightnfs.Sessions.Types.{StateMgr}
use lightnfs.Opens.Types.{
  StateType, StateRec, FileStateRec, States, file, open_state, lock_state, deleg_state,
}
use lightnfs.Opens.Unlink.{
  close_rec, unlist_in, store_file, release_type, untrack, untrack_state, each, unlink_level,
  unlink_state, file_key,
}

-- A stateid of the table leads to a record that has it and is not closed.
abbrev pub IsFiled : States → Type 0
IsFiled o =
    (j : List ℕ) (r : ℕ)
    → find j o.table ≡ some r
    → ((o.recs r).other ≡ j) × ((o.recs r).closed ≡ false)

if-IsFiled :
    (b : Bool) (x y : StateMgr)
    → IsFiled x.opens
    → IsFiled y.opens
    → IsFiled (if b then x else y).opens
if-IsFiled true x y h k = h
if-IsFiled false x y h k = k

either-IsFiled : (b : Bool) (x y : States) → IsFiled x → IsFiled y → IsFiled (if b then x else y)
either-IsFiled true x y h k = h
either-IsFiled false x y h k = k

erased :
    (b : Bool) (x : Option ℕ) (r : ℕ)
    → (if b then none else x) ≡ some r
    → (b ≡ false) × (x ≡ some r)
erased true x r h = let bad : ⊥ = cc in absurd bad
erased false x r h = (refl, h)

close_rec-IsFiled : (m : StateMgr) (r : ℕ) → IsFiled m.opens → IsFiled (close_rec m r).opens
unfolding close_rec
close_rec-IsFiled m r h j i e =
    let id = (m.opens.recs r).other in
    let (differs, there) =
      erased (bytes_eq id j) (find j m.opens.table) i (sym (find-erase j id m.opens.table) ∙ e) in
    let (same, live) = h j i there in
    elim (Bool-cases (i == r)) [
      | inl q ↦
          let here : id ≡ j = ap (λ k. (m.opens.recs k).other) (sym ((==_iff i r).0 q)) ∙ same in
          let yes : bytes_eq id j ≡ true =
            subst (λ k. bytes_eq id k ≡ true) here (bytes_eq_refl id) in
          let bad : ⊥ = cc in absurd bad
      | inr q ↦ rw q (same, live)
    ]

unlist_in-IsFiled :
    (m : StateMgr) (r : ℕ) (rec : StateRec) (f : Option FileStateRec)
    → IsFiled m.opens
    → IsFiled (unlist_in m r rec f).1.opens
unfolding unlist_in store_file
unlist_in-IsFiled m r rec none h = h
unlist_in-IsFiled m r rec (some f) h = either-IsFiled _ _ _ h h

release_type-IsFiled :
    (m : StateMgr) (rec : StateRec) (t : StateType)
    → IsFiled m.opens
    → IsFiled (release_type m rec t).opens
unfolding release_type
release_type-IsFiled m rec open_state h = h
release_type-IsFiled m rec lock_state h = h
release_type-IsFiled m rec deleg_state h = h

each-IsFiled :
    (f : StateMgr → ℕ → StateMgr) (rs : List ℕ) (m : StateMgr)
    → ((n : StateMgr) (r : ℕ) → IsFiled n.opens → IsFiled (f n r).opens)
    → IsFiled m.opens
    → IsFiled (each f m rs).opens
each-IsFiled f [] m s h = h
each-IsFiled f (r ∷ rs) m s h = each-IsFiled f rs (f m r) s (s m r h)

untrack-IsFiled :
    (m : StateMgr) (rec : StateRec) (handover : Bool)
    → IsFiled m.opens
    → IsFiled (untrack m rec handover).opens
unfolding untrack
untrack-IsFiled m rec handover h =
    let (last, c) = untrack_state (m.clients rec.client) rec in
    if-IsFiled (last && m.cfg.per_fsid_reclaim && not handover) _ _ h h

unlink_level-IsFiled :
    (k : ℕ) (by_client handover : Bool) (m : StateMgr) (r : ℕ)
    → IsFiled m.opens
    → IsFiled (unlink_level k m r by_client handover).opens
unfolding unlink_level
unlink_level-IsFiled zero by_client handover m r h = h
unlink_level-IsFiled (suc k) by_client handover m r h =
    let rec = m.opens.recs r in
    let m1 = close_rec m r in
    let f = find (file_key rec) m1.opens.files in
    let m2 = (unlist_in m1 r rec f).1 in
    let locks = (unlist_in m1 r rec f).0 in
    let m3 =
      each (λ m' l. unlink_level k m' l by_client handover) (release_type m2 rec rec.type) locks in
    let cleared : IsFiled m3.opens =
      each-IsFiled _ locks (release_type m2 rec rec.type)
        (unlink_level-IsFiled k by_client handover)
        (release_type-IsFiled m2 rec rec.type
          (unlist_in-IsFiled m1 r rec f (close_rec-IsFiled m r h))) in
    if-IsFiled rec.closed m _ h (
      if-IsFiled by_client (untrack m3 rec handover) m3 (untrack-IsFiled m3 rec handover cleared)
        cleared)

pub unlink_state-IsFiled :
    (m : StateMgr) (r : ℕ) (by_client handover : Bool)
    → IsFiled m.opens
    → IsFiled (unlink_state m r by_client handover).opens
unfolding unlink_state
unlink_state-IsFiled m r by_client handover h = unlink_level-IsFiled 2 by_client handover m r h
