-- ===== src/Clients/Leaves.antt =====
-- The operations by which clients leave, in src/state/state_mgr.cpp, as moves of the view of the tables.
use mathlib.Core.Path.{subst}
use lightnfs.Prelude.{
  ℕ, ◌≡◌, refl, sym, ap, ◌∙◌, Bool, true, false, not, ◌||◌, Option, none, some, List, [], ◌∷◌,
  if◌then◌else◌, Bool-cases, inl, inr, leb, ltb, ◌-◌,
}
use lightnfs.Maps.{bytes, number, find}
use lightnfs.Clients.Types.{points}
use lightnfs.Sessions.Types.{Client, StateMgr}
use lightnfs.Sessions.Sequence.{write_client}
use lightnfs.Clients.Exchange.{
  find_client, unregister, unpersist_client, has_state, is_none, next_clientid,
}
use lightnfs.Clients.Session.{kill_sessions, unlink_all}
use lightnfs.Clients.Leave.{
  leave_owner, end_courtesy, forget_lock_owners, destroy_found_client, destroy_for,
  destroy_clientid, reclaim_for, reclaim_complete, Reason, count_reason, forced, conflict, timeout,
  retire, expire_found, expire_for, expire_client,
}
use lightnfs.Clients.Scan.{
  pop_due, deadline_is, due_client, due_clients, courtesy_window, count_expiration, lapse,
  enter_courtesy, end_lease, visit, visit_all, expire_all, scan_leases,
}
use lightnfs.Clients.Kept.{Kept-trans, unlink_all-Kept, kill_sessions-Kept}
use lightnfs.Clients.View.{
  View, see, view, IsIn, Move, Moves, drops, here, IsConsistent, Moves-IsConsistent, Moves-trans,
}
use lightnfs.Clients.Tables.{
  Kept-view, heap-view, write_client-view, arm_lease_check-view, end_courtesy-view,
  unpersist_client-view, leave_owner-view, left,
}
use lightnfs.Clients.Moves.{one, stay, unregister-dropped, points-eq}
use lightnfs.Clients.Confirms.{find_client-IsIn, faces-view}

-- A manager with the same view loses a registered record.
removed :
    (m n : StateMgr) (a id : ℕ)
    → IsConsistent (view m)
    → IsIn (view m) a
    → (m.clients a).clientid ≡ id
    → view n ≡ left (view m) ((view m).faces a).owner_id a
    → Move (view m) (view (unregister n id))
removed m n a id c h e p =
    subst (λ k. Move (view m) (view (unregister n k))) (ap (λ x. x.clientid) (faces-view m a) ∙ e)
      (drops a h (unregister-dropped m n a c h p))

-- The record leaves its owner's slot in a manager with the same view and the same owner.
leave_same :
    (m n : StateMgr) (a : ℕ)
    → view n ≡ view m
    → view (leave_owner n a) ≡ left (view m) ((view m).faces a).owner_id a
leave_same m n a e =
    leave_owner-view n a
    ∙ (ap (λ x. left (view n) x.owner_id a) (sym (faces-view n a))
        ∙ ap (λ (v : View). left v (v.faces a).owner_id a) e)

forget-view : (m : StateMgr) (id : ℕ) → view (forget_lock_owners m id) ≡ view m
unfolding forget_lock_owners
forget-view m id = heap-view m _ refl refl refl

destroy_found-Moves :
    (m : StateMgr) (a id : ℕ)
    → IsConsistent (view m)
    → IsIn (view m) a
    → (m.clients a).clientid ≡ id
    → Moves (view m) (view (destroy_found_client m a id).1)
unfolding destroy_found_client
destroy_found-Moves m a id c h e = elim (Bool-cases (points (find id m.registry.by_id) a)) [
  | inr p ↦ rw p here
  | inl p ↦ elim (Bool-cases (has_state (m.clients a))) [
    | inl q ↦ rw (p, q) here
    | inr q ↦
        let n = leave_owner (unpersist_client m a) a in
        rw (p, q)
          (subst (Moves (view m)) (sym (forget-view _ id)) (
            one (
              removed m (end_courtesy n a) a id c h e (
                end_courtesy-view n a
                ∙ leave_same m (unpersist_client m a) a (unpersist_client-view m a)))))
  ]
]

destroy_for-Moves :
    (m : StateMgr) (a : Option ℕ) (id : ℕ)
    → IsConsistent (view m)
    → find_client m id ≡ a
    → Moves (view m) (view (destroy_for m a id).1)
destroy_for-Moves m none id c h = here
destroy_for-Moves m (some a) id c h =
    let (isin, named) = find_client-IsIn m id a c h in destroy_found-Moves m a id c isin named

pub destroy_clientid-Moves :
    (m : StateMgr) (id : ℕ)
    → IsConsistent (view m)
    → Moves (view m) (view (destroy_clientid m id).1)
unfolding destroy_clientid
destroy_clientid-Moves m id c = destroy_for-Moves m _ id c refl

pub pair_if-view :
    {R : Type 0} (x y : R × StateMgr) {v : View} (b : Bool)
    → view x.1 ≡ v
    → view y.1 ≡ v
    → view (if b then x else y).1 ≡ v
pair_if-view x y true p q = p
pair_if-view x y false p q = q

reclaim_for-view : (m : StateMgr) (a : Option ℕ) (id : ℕ) → view (reclaim_for m a id).1 ≡ view m
unfolding reclaim_for
reclaim_for-view m none id = refl
reclaim_for-view m (some a) id =
    let x = m.clients a in
    let m' = write_client m a (record x { reclaim_complete = true }) in
    pair_if-view _ _ (is_none (find id m.registry.by_id)) refl (
      pair_if-view _ _ x.reclaim_complete refl
        (heap-view m' _ refl refl refl ∙ write_client-view m a _ refl))

pub reclaim_complete-view : (m : StateMgr) (id : ℕ) → view (reclaim_complete m id).1 ≡ view m
unfolding reclaim_complete
reclaim_complete-view m id = reclaim_for-view m _ id

count_reason-view : (m : StateMgr) (r : Reason) → view (count_reason m r) ≡ view m
unfolding count_reason view see next_clientid
count_reason-view m forced = refl
count_reason-view m conflict = refl
count_reason-view m timeout = refl

retire-Moves :
    (m : StateMgr) (a id : ℕ)
    → IsConsistent (view m)
    → IsIn (view m) a
    → (m.clients a).clientid ≡ id
    → Move (view m) (view (retire m a id))
unfolding retire
retire-Moves m a id c h e =
    let m1 = end_courtesy m a in
    let x : Client = record (m1.clients a) { expired = true; states = []; sessions = [] } in
    removed m _ a id c h e
      (leave_same m (write_client m1 a x) a (write_client-view m1 a x refl ∙ end_courtesy-view m a))

pair_if-Moves :
    {R : Type 0} {v : View} (x y : R × StateMgr) (b : Bool)
    → Moves v (view x.1)
    → Moves v (view y.1)
    → Moves v (view (if b then x else y).1)
pair_if-Moves x y true p q = p
pair_if-Moves x y false p q = q

expire_found-Moves :
    (m : StateMgr) (a id : ℕ) (r : Reason)
    → IsConsistent (view m)
    → IsIn (view m) a
    → (m.clients a).clientid ≡ id
    → Moves (view m) (view (expire_found m a id r).1)
unfolding expire_found
expire_found-Moves m a id r c h e =
    let x = m.clients a in
    let m0 = retire m a id in
    let m1 = kill_sessions (unlink_all m0 x.states) x.sessions in
    let m2 = unpersist_client m1 a in
    let same : view (count_reason (forget_lock_owners m2 id) r) ≡ view m0 =
      count_reason-view (forget_lock_owners m2 id) r
      ∙ (forget-view m2 id
          ∙ (unpersist_client-view m1 a
              ∙ Kept-view (
                  Kept-trans (unlink_all-Kept x.states m0)
                    (kill_sessions-Kept x.sessions (unlink_all m0 x.states))))) in
    pair_if-Moves _ _ (not (points (find id m.registry.by_id) a)) here (
      pair_if-Moves _ _ x.expired here
        (subst (Moves (view m)) (sym same) (one (retire-Moves m a id c h e))))

expire_for-Moves :
    (m : StateMgr) (a : Option ℕ) (id : ℕ) (r : Reason)
    → IsConsistent (view m)
    → find_client m id ≡ a
    → Moves (view m) (view (expire_for m a id r).1)
expire_for-Moves m none id r c h = here
expire_for-Moves m (some a) id r c h =
    let (isin, named) = find_client-IsIn m id a c h in expire_found-Moves m a id r c isin named

pub expire_client-Moves :
    (m : StateMgr) (id : ℕ) (r : Reason)
    → IsConsistent (view m)
    → Moves (view m) (view (expire_client m id r).1)
unfolding expire_client
expire_client-Moves m id r c = expire_for-Moves m _ id r c refl

due_client-view : (m : StateMgr) (when : ℕ) (a : Option ℕ) → view (due_client m when a).1 ≡ view m
unfolding due_client
due_client-view m when none = refl
due_client-view m when (some a) =
    pair_if-view _ _ (deadline_is (m.clients a).lease_heap_deadline when)
      (write_client-view m a _ refl) refl

due_clients-view : (es : List (ℕ × ℕ)) (m : StateMgr) → view (due_clients m es).1 ≡ view m
unfolding due_clients
due_clients-view [] m = refl
due_clients-view ((when, id) ∷ es) m =
    let first = find id m.registry.client_idx in
    due_clients-view es (due_client m when first).1 ∙ due_client-view m when first

count_expiration-view : (m : StateMgr) → view (count_expiration m) ≡ view m
unfolding view see next_clientid
count_expiration-view m = refl

-- A client that is due may be gone already: then the lapse is not reached.
lapse-Moves :
    (m : StateMgr) (a : ℕ)
    → IsConsistent (view m)
    → IsIn (view m) a
    → Moves (view m) (view (lapse m a))
unfolding lapse
lapse-Moves m a c h = subst (Moves (view m)) (sym (count_expiration-view _)) (
    one (
      removed m _ a (m.clients a).clientid c h refl
        (leave_same m (unpersist_client m a) a (unpersist_client-view m a))))

enter_courtesy-view : (m : StateMgr) (a now : ℕ) → view (enter_courtesy m a now) ≡ view m
unfolding enter_courtesy
enter_courtesy-view m a now =
    let x : Client = record (m.clients a) { courtesy = true; courtesy_since = now } in
    let m' = write_client m a x in
    arm_lease_check-view _ a _
    ∙ (count_expiration-view _ ∙ (heap-view m' _ refl refl refl ∙ write_client-view m a x refl))

found-IsIn :
    (m : StateMgr) (a : ℕ)
    → IsConsistent (view m)
    → points (find (m.clients a).clientid m.registry.by_id) a ≡ true
    → IsIn (view m) a
unfolding view see
found-IsIn m a c h = sym (c.by_id (m.clients a).clientid) ∙ points-eq _ a h

end_lease-Moves :
    (m : StateMgr) (a now : ℕ) → IsConsistent (view m) → Moves (view m) (view (end_lease m a now))
unfolding end_lease
end_lease-Moves m a now c =
    let x = m.clients a in
    elim (Bool-cases (points (find x.clientid m.registry.by_id) a)) [
      | inr p ↦ rw p here
      | inl p ↦ elim (Bool-cases (not x.confirmed || not (has_state x))) [
        | inl q ↦ rw (p, q) (lapse-Moves m a c (found-IsIn m a c p))
        | inr q ↦ rw (p, q) (stay (enter_courtesy-view m a now))
      ]
    ]

visit-Moves :
    (m : StateMgr) (a now : ℕ) → IsConsistent (view m) → Moves (view m) (view (visit m a now).1)
unfolding visit
visit-Moves m a now c =
    let x = m.clients a in
    pair_if-Moves _ _ x.expired here (
      pair_if-Moves _ _ x.courtesy
        (pair_if-Moves _ _ (leb (courtesy_window m) (now - x.courtesy_since)) here
          (stay (arm_lease_check-view m a _)))
        (pair_if-Moves _ _ (ltb now x.lease_expiry) (stay (arm_lease_check-view m a _))
          (end_lease-Moves m a now c)))

visit_all-Moves :
    (as' : List ℕ) (m : StateMgr) (now : ℕ)
    → IsConsistent (view m)
    → Moves (view m) (view (visit_all m as' now).1)
unfolding visit_all
visit_all-Moves [] m now c = here
visit_all-Moves (a ∷ as') m now c =
    let first = visit-Moves m a now c in
    Moves-trans first (visit_all-Moves as' (visit m a now).1 now (Moves-IsConsistent c first))

expire_all-Moves :
    (ids : List ℕ) (m : StateMgr) → IsConsistent (view m) → Moves (view m) (view (expire_all m ids))
unfolding expire_all
expire_all-Moves [] m c = here
expire_all-Moves (id ∷ ids) m c =
    let first = expire_client-Moves m id timeout c in
    Moves-trans first
      (expire_all-Moves ids (expire_client m id timeout).1 (Moves-IsConsistent c first))

pub scan_leases-Moves :
    (m : StateMgr) (now : ℕ) → IsConsistent (view m) → Moves (view m) (view (scan_leases m now))
unfolding scan_leases
scan_leases-Moves m now c =
    let popped = pop_due now m.lease_heap in
    let m0 = record m { lease_heap = popped.1 } in
    let due = due_clients m0 popped.0 in
    let same : view due.1 ≡ view m = due_clients-view popped.0 m0 ∙ heap-view m m0 refl refl refl in
    let visited = visit_all due.1 due.0 now in
    let seen =
      Moves-trans (stay same) (visit_all-Moves due.0 due.1 now (subst IsConsistent (sym same) c)) in
    Moves-trans seen (expire_all-Moves visited.0 visited.1 (Moves-IsConsistent c seen))
