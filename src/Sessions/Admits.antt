-- ===== src/Sessions/Admits.antt =====
-- When `sequence_begin` of src/state/state_mgr.cpp tells its caller to execute the request.
use lightnfs.Prelude.{
  ℕ, ◌≡◌, ◌↔◌, ◌<◌, refl, Bool, true, false, Option, none, some, List, leb, arith, get_elem?, inl,
  inr, Bool-cases,
}
use lightnfs.Maps.{bytes, find, put}
use lightnfs.Sessions.Types.{Slot, Session, StateMgr, next32}
use lightnfs.Sessions.Sequence.{
  Decision, decide, act, on_slot, on_session, sequence_begin, insert_conn, claimed,
}
use lightnfs.Sessions.Slots.{is_claim, is_claim-replayed}
use lightnfs.Sessions.Begin.{decide-claim}

abbrev pub SlotReady : List Slot → ℕ → ℕ → Type 0
SlotReady slots i seqid =
    (slot : Slot) × (get_elem? slots i ≡ some slot)
    × (slot.in_flight ≡ false)
    × (seqid ≡ next32 slot.seqid)

-- The session is known, its client has not expired, the slot and the highest slot are slots of it,
-- and the slot is free and expects this number.
abbrev pub IsReady : StateMgr → List ℕ → ℕ → ℕ → ℕ → Type 0
IsReady m id i seqid highest =
    (s : Session) × (find id m.sessions ≡ some s)
    × ((m.clients s.client).expired ≡ false)
    × (i < s.slot_count)
    × (highest < s.slot_count)
    × SlotReady s.slots i seqid

act-claim :
    (m : StateMgr) (id : List ℕ) (s : Session) (i : ℕ) (slot : Slot) (alive : Bool) (now seqid : ℕ)
    → (d : Decision) → decide slot seqid ≡ d
    → is_claim (act m id s i slot alive now d).0 ≡ true
    → (slot.in_flight ≡ false) × (seqid ≡ next32 slot.seqid)
unfolding act is_claim
act-claim m id s i slot alive now seqid Decision.wait e h = cc
act-claim m id s i slot alive now seqid Decision.busy e h = cc
act-claim m id s i slot alive now seqid Decision.claim e h = decide-claim slot seqid e
act-claim m id s i slot alive now seqid Decision.again e h = cc (h, is_claim-replayed slot)
act-claim m id s i slot alive now seqid Decision.misordered e h = cc

on_slot-claim :
    (m : StateMgr) (id : List ℕ) (s : Session) (i seqid : ℕ) (alive : Bool) (now : ℕ)
    (o : Option Slot)
    → is_claim (on_slot m id s i seqid alive now o).0 ≡ true
    → (slot : Slot) × (o ≡ some slot) × (slot.in_flight ≡ false) × (seqid ≡ next32 slot.seqid)
unfolding on_slot is_claim
on_slot-claim m id s i seqid alive now none h = cc
on_slot-claim m id s i seqid alive now (some slot) h =
    let (free, next) = act-claim m id s i slot alive now seqid (decide slot seqid) refl h in
    (slot, refl, free, next)

refused : false ≡ true → ⊥
refused h = cc

on_session-claim :
    (m : StateMgr) (id : List ℕ) (i seqid highest conn : ℕ) (alive : Bool) (now : ℕ)
    (o : Option Session)
    → find id m.sessions ≡ o
    → is_claim (on_session m id i seqid highest conn alive now o).0 ≡ true
    → IsReady m id i seqid highest
unfolding on_session is_claim
on_session-claim m id i seqid highest conn alive now none e h = absurd (refused h)
on_session-claim m id i seqid highest conn alive now (some s) e h =
    let s' = record s { bound_conns = insert_conn conn s.bound_conns } in
    let m' = record m { sessions = put id s' m.sessions } in
    elim (Bool-cases (m.clients s.client).expired) [
      | inl a ↦ absurd (refused (rw a at h))
      | inr a ↦ elim (Bool-cases (leb s.slot_count i)) [
        | inl b ↦ absurd (refused (rw (a, b) at h))
        | inr b ↦ elim (Bool-cases (leb s.slot_count highest)) [
          | inl c ↦ absurd (refused (rw (a, b, c) at h))
          | inr c ↦
              let ready =
                on_slot-claim m' id s' i seqid alive now (get_elem? s.slots i)
                  (rw (a, b, c) at h) in
              (s, e, a, ground arith, ground arith, ready)
        ]
      ]
    ]

decide-ready :
    (slot : Slot) (seqid : ℕ)
    → slot.in_flight ≡ false
    → seqid ≡ next32 slot.seqid
    → decide slot seqid ≡ Decision.claim
unfolding decide
decide-ready slot seqid f e = ground arith

act-claims :
    (m : StateMgr) (id : List ℕ) (s : Session) (i : ℕ) (slot : Slot) (alive : Bool) (now : ℕ)
    → is_claim (act m id s i slot alive now Decision.claim).0 ≡ true
unfolding act is_claim claimed
act-claims m id s i slot alive now = refl

ready-claim :
    (m : StateMgr) (id : List ℕ) (i seqid highest conn : ℕ) (alive : Bool) (now : ℕ)
    → IsReady m id i seqid highest
    → is_claim (sequence_begin m id i seqid highest conn alive now).0 ≡ true
unfolding sequence_begin on_session on_slot
ready-claim m id i seqid highest conn alive now (s, e, live, a, b, (slot, there, free, next)) =
    let p : leb s.slot_count i ≡ false = ground arith in
    let q : leb s.slot_count highest ≡ false = ground arith in
    let s' = record s { bound_conns = insert_conn conn s.bound_conns } in
    let m' = record m { sessions = put id s' m.sessions } in
    rw (e, live, p, q, there, decide-ready slot seqid free next)
      (act-claims m' id s' i slot alive now)

-- `sequence_begin` tells its caller to execute the request exactly when the session is in the table,
-- its client has not expired, the slot and the highest slot are below the session's number of slots,
-- the slot is not in flight, and the request has the number after the slot's.
pub sequence_begin-claim_iff :
    (m : StateMgr) (id : List ℕ) (i seqid highest conn : ℕ) (alive : Bool) (now : ℕ)
    → (is_claim (sequence_begin m id i seqid highest conn alive now).0 ≡ true)
      ↔ IsReady m id i seqid highest
unfolding sequence_begin
sequence_begin-claim_iff m id i seqid highest conn alive now = (
  on_session-claim m id i seqid highest conn alive now (find id m.sessions) refl,
  ready-claim m id i seqid highest conn alive now,
)
