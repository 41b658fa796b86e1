-- ===== src/Sessions/Replay.antt =====
-- The answers of `sequence_begin` of src/state/state_mgr.cpp that execute nothing.
use lightnfs.Prelude.{
  ℕ, ◌≡◌, ◌≢◌, refl, sym, ◌∙◌, Bool, true, false, Option, none, some, List, [], ◌∷◌, if◌then◌else◌,
  leb, arith, get_elem?, inl, inr, if_case, Bool-cases,
}
use lightnfs.Nfs4.Status.{Status}
use lightnfs.Maps.{bytes, find, put}
use lightnfs.Sessions.Types.{Slot, Session, StateMgr}
use lightnfs.Sessions.Sequence.{
  Decision, decide, act, on_slot, on_session, sequence_begin, Verdict, parked, answer, refuse,
  replayed, insert_conn,
}
use lightnfs.Sessions.Slots.{slot_of}
use lightnfs.Sessions.Sized.{IsSized}
use lightnfs.Sessions.Log.{Done, Event, run, executing, executed, IsLogged}
use lightnfs.Sessions.Trace.{IsFresh, start, start-IsOnce, run-IsOnce}

unfoldable pub is_replay : Verdict → Bool
is_replay parked = false
is_replay (answer r) = r.replay

-- The answer is the stored one of a slot that has this number.
abbrev Replays : Option Slot → ℕ → Verdict → Type 0
Replays o seqid v =
    is_replay v ≡ true
    → (slot : Slot) × (o ≡ some slot)
      × (v ≡ answer (replayed slot))
      × (slot.seqid ≡ seqid)
      × (slot.seqid ≢ 0)

decide-again :
    (slot : Slot) (seqid : ℕ)
    → decide slot seqid ≡ Decision.again
    → (slot.seqid ≡ seqid) × (slot.seqid ≢ 0)
unfolding decide
decide-again slot seqid h = ground arith

act-Replays :
    (m : StateMgr) (id : List ℕ) (s : Session) (i : ℕ) (slot : Slot) (alive : Bool) (now seqid : ℕ)
    → (d : Decision) → decide slot seqid ≡ d
    → Replays (some slot) seqid (act m id s i slot alive now d).0
unfolding act is_replay
act-Replays m id s i slot alive now seqid Decision.wait e h = cc
act-Replays m id s i slot alive now seqid Decision.busy e h = cc
act-Replays m id s i slot alive now seqid Decision.claim e h = cc
act-Replays m id s i slot alive now seqid Decision.again e h =
    let (same, new) = decide-again slot seqid e in (slot, refl, refl, same, new)
act-Replays m id s i slot alive now seqid Decision.misordered e h = cc

on_slot-Replays :
    (m : StateMgr) (id : List ℕ) (s : Session) (i seqid : ℕ) (alive : Bool) (now : ℕ)
    (o : Option Slot)
    → Replays o seqid (on_slot m id s i seqid alive now o).0
unfolding on_slot is_replay
on_slot-Replays m id s i seqid alive now none h = cc
on_slot-Replays m id s i seqid alive now (some slot) h =
    act-Replays m id s i slot alive now seqid (decide slot seqid) refl h

on_session-Replays :
    (m : StateMgr) (id : List ℕ) (i seqid highest conn : ℕ) (alive : Bool) (now : ℕ)
    (o : Option Session)
    → Replays (slot_of o i) seqid (on_session m id i seqid highest conn alive now o).0
unfolding on_session is_replay
on_session-Replays m id i seqid highest conn alive now none = λ h. cc
on_session-Replays m id i seqid highest conn alive now (some s) =
    let s' = record s { bound_conns = insert_conn conn s.bound_conns } in
    let m' = record m { sessions = put id s' m.sessions } in
    let fits = λ (r : Verdict × StateMgr). Replays (get_elem? s.slots i) seqid r.0 in
    if_case fits (m.clients s.client).expired (λ h. cc)
      (if_case fits (leb s.slot_count i) (λ h. cc)
        (if_case fits (leb s.slot_count highest) (λ h. cc)
          (on_slot-Replays m' id s' i seqid alive now (get_elem? s.slots i))))

-- The stored answer of the last request that was executed.
abbrev pub Repeats : List Done → ℕ → Verdict → Type 0
Repeats [] seqid v = ⊥
Repeats (d ∷ log) seqid v =
    (d.claim.seqid ≡ seqid)
    × (v
        ≡ answer (
            if d.cached
            then record (refuse Status.ok) { replay = true; replay_bytes = d.reply }
            else record (refuse Status.retry_uncached_rep) { replay = true }))

replayed-Repeats :
    (slot : Slot) (xs : List ℕ) (log : List Done) (seqid : ℕ)
    → IsLogged slot xs log
    → slot.seqid ≡ seqid
    → slot.seqid ≢ 0
    → Repeats log seqid (answer (replayed slot))
unfolding replayed
replayed-Repeats slot xs [] seqid h e ne = ne h.last
replayed-Repeats slot xs (d ∷ log) seqid h e ne = (
  sym h.last ∙ e,
  elim (Bool-cases d.cached) [
    | inl q ↦
        let kept : slot.cached ≡ true = h.keeps.0 ∙ q in
        let bytes_kept : slot.reply ≡ d.reply = rw q at h.keeps.1 in rw (q, kept, bytes_kept)
    | inr q ↦ let kept : slot.cached ≡ false = h.keeps.0 ∙ q in rw (q, kept)
  ],
)

-- After any events from a manager whose sessions have as many slots as their counts say and whose
-- slots are fresh, an answer of `sequence_begin` that is a replay
-- repeats the request that was executed last on the slot: it has the same sequence number, and the
-- answer has its reply if the reply was to be cached, and is `retry_uncached_rep` if it was not.
pub sequence_begin-replay :
    (m : StateMgr) (events : List Event)
    → IsSized m.sessions
    → IsFresh m
    → (id : List ℕ) (i seqid highest conn : ℕ) (alive : Bool) (now : ℕ)
    → let r = run (start m) events in
      let v = (sequence_begin r.mgr id i seqid highest conn alive now).0 in
      is_replay v ≡ true → Repeats (executed r.log id i) seqid v
unfolding sequence_begin
sequence_begin-replay m events z f id i seqid highest conn alive now h =
    let r = run (start m) events in
    let (slot, there, same, number, ne) =
      on_session-Replays r.mgr id i seqid highest conn alive now (find id r.mgr.sessions) h in
    let old = (run-IsOnce (start m) events z (start-IsOnce m f)).logged id i slot there in
    rw same
      (replayed-Repeats slot (executing r.claims id i) (executed r.log id i) seqid old number ne)
