-- ===== src/Sessions/Steps.antt =====
-- The operations of src/state/state_mgr.cpp on sessions, as they change slots.
use mathlib.Core.Option
use lightnfs.Prelude.{
  ℕ, zero, suc, ◌≡◌, inl, inr, refl, ap, sym, ◌∙◌, Bool, true, false, Option, none, some, List, [],
  ◌∷◌, ltb, leb, if◌then◌else◌, get_elem?, arith, if_case, bytes_eq-eq, bytes_eq_refl, Bool-cases,
  length,
}
use lightnfs.Maps.{bytes, find, put, find-put}
use lightnfs.Sessions.Types.{Slot, Session, StateMgr}
use lightnfs.Sessions.Sequence.{
  decide, on_slot, Verdict, on_session, sequence_begin, update_found, update_in, update_slot,
  insert_conn,
}
use lightnfs.Sessions.Sized.{IsSized}
use lightnfs.Sessions.Slots.{
  slot_of, slot_at, same_slot, is_claim, Unchanged, Round, act-Round, slot_at-bind,
  slot_at-write_slot,
}

-- A round that starts from the same slots.
Round-from :
    (m n : StateMgr) (id : List ℕ) (i seqid : ℕ) (r : Verdict × StateMgr)
    → Unchanged m n
    → Round n id i seqid r
    → Round m id i seqid r
Round-from m n id i seqid r u (inl (c, h)) = inl (c, λ j k. h j k ∙ u j k)
Round-from m n id i seqid r u (inr (slot, f, d, c, h)) = inr (
  slot,
  sym (u id i) ∙ f,
  d,
  c,
  λ j k.
      h j k
      ∙ ap
          (λ (o : Option Slot).
            if same_slot id i j k then some (record slot { in_flight = true }) else o)
          (u j k),
)

module _ (m : StateMgr) (id : List ℕ) (s : Session) (i seqid : ℕ) (alive : Bool) (now : ℕ)
    (g : (k : ℕ) → slot_of (find id m.sessions) k ≡ get_elem? s.slots k) where
  on_slot-Round :
      (o : Option Slot)
      → get_elem? s.slots i ≡ o
      → Round m id i seqid (on_slot m id s i seqid alive now o)
  unfolding on_slot is_claim
  on_slot-Round none e = inl (refl, λ j k. refl)
  on_slot-Round (some slot) e =
      act-Round m id s i slot alive now seqid (g i ∙ e) g (decide slot seqid) refl

bound :
    (m : StateMgr) (id : List ℕ) (s s' : Session)
    → find id m.sessions ≡ some s
    → find id (put id s' m.sessions) ≡ some s'
bound m id s s' e = rw (find-put id id s' m.sessions, bytes_eq_refl id)

on_session-Round :
    (m : StateMgr) (id : List ℕ) (i seqid highest conn : ℕ) (alive : Bool) (now : ℕ)
    → (o : Option Session) → find id m.sessions ≡ o
    → Round m id i seqid (on_session m id i seqid highest conn alive now o)
unfolding on_session is_claim
on_session-Round m id i seqid highest conn alive now none e = inl (refl, λ j k. refl)
on_session-Round m id i seqid highest conn alive now (some s) e =
    let s' = record s { bound_conns = insert_conn conn s.bound_conns } in
    let m' = record m { sessions = put id s' m.sessions } in
    let u = λ (j : List ℕ) (k : ℕ). slot_at-bind m id s (insert_conn conn s.bound_conns) j k e in
    if_case (Round m id i seqid) (m.clients s.client).expired (inl (refl, λ j k. refl)) (
      if_case (Round m id i seqid) (leb s.slot_count i) (inl (refl, u)) (
        if_case (Round m id i seqid) (leb s.slot_count highest) (inl (refl, u)) (
          Round-from m m' id i seqid (on_slot m' id s' i seqid alive now (get_elem? s.slots i)) u (
            on_slot-Round m' id s' i seqid alive now
              (λ k. ap (λ (o : Option Session). slot_of o k) (bound m id s s' e))
              (get_elem? s.slots i) refl))))

-- A round of `sequence_begin` either tells the caller nothing to execute and leaves every slot of
-- every session as it is, or it claims: the slot named was there and expected this request, it is in
-- flight now, and every other slot is as it was.
pub sequence_begin-Round :
    (m : StateMgr) (id : List ℕ) (i seqid highest conn : ℕ) (alive : Bool) (now : ℕ)
    → Round m id i seqid (sequence_begin m id i seqid highest conn alive now)
unfolding sequence_begin
sequence_begin-Round m id i seqid highest conn alive now =
    on_session-Round m id i seqid highest conn alive now (find id m.sessions) refl

get_elem?_past : (xs : List Slot) (i : ℕ) → ltb i (length xs) ≡ false → get_elem? xs i ≡ none
get_elem?_past [] i h = refl
get_elem?_past (x ∷ xs) zero h = ground arith
get_elem?_past (x ∷ xs) (suc i) h = get_elem?_past xs i (ground arith)

pub slot_at_same :
    (m : StateMgr) (id : List ℕ) (i : ℕ) (j : List ℕ) (k : ℕ)
    → same_slot id i j k ≡ true
    → slot_at m j k ≡ slot_at m id i
slot_at_same m id i j k q =
    let ids : id ≡ j = bytes_eq-eq id j (ground arith) in
    let numbers : i ≡ k = ground arith in
    ap (λ (x : List ℕ). slot_at m x k) (sym ids) ∙ ap (slot_at m id) (sym numbers)

module _ (m : StateMgr) (id : List ℕ) (i : ℕ) (f : Slot → Slot) (j : List ℕ) (k : ℕ) where
  abbrev Updated : StateMgr → Type 0
  Updated n =
      slot_at n j k ≡ (if same_slot id i j k then Option.map f (slot_at m j k) else slot_at m j k)

  -- A slot that is not there is not changed.
  not_there : slot_at m id i ≡ none → Updated m
  not_there e = elim (Bool-cases (same_slot id i j k)) [
    | inl q ↦ rw q (rw (slot_at_same m id i j k q, e) refl)
    | inr q ↦ rw q
  ]

  update_found-Updated :
      (s : Session) (o : Option Slot)
      → find id m.sessions ≡ some s
      → get_elem? s.slots i ≡ o
      → Updated (update_found m id s i f o)
  unfolding update_found
  update_found-Updated s none e g = not_there (ap (λ (o : Option Session). slot_of o i) e ∙ g)
  update_found-Updated s (some slot) e g =
      slot_at-write_slot m id s i (f slot) slot j k g (ap (λ (o : Option Session). slot_of o k) e)
      ∙ elim (Bool-cases (same_slot id i j k)) [
        | inl q ↦ rw q (
            ap (Option.map f)
              (sym (slot_at_same m id i j k q ∙ ap (λ (o : Option Session). slot_of o i) e ∙ g)))
        | inr q ↦ rw q
      ]

  update_in-Updated :
      IsSized m.sessions
      → (o : Option Session) → find id m.sessions ≡ o
      → Updated (update_in m id i f o)
  unfolding update_in
  update_in-Updated z none e = not_there (ap (λ (o : Option Session). slot_of o i) e)
  update_in-Updated z (some s) e = elim (Bool-cases (ltb i s.slot_count)) [
    | inl q ↦ rw q (update_found-Updated s (get_elem? s.slots i) e refl)
    | inr q ↦ rw q (
        not_there (
          ap (λ (o : Option Session). slot_of o i) e
          ∙ get_elem?_past s.slots i (rw (z.sized id s e) at q)))
  ]

  pub slot_at-update_slot : IsSized m.sessions → Updated (update_slot m id i f)
  unfolding update_slot
  slot_at-update_slot z = update_in-Updated z (find id m.sessions) refl
