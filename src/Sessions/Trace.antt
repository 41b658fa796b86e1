-- ===== src/Sessions/Trace.antt =====
-- What is executed on the slots of src/state/state_mgr.cpp, over any events.
use lightnfs.Prelude.{
  ℕ, ◌≡◌, ◌%◌, ◌^◌, inl, inr, refl, sym, ◌∙◌, false, not, Option, none, some, List, [], ◌∷◌,
  if◌then◌else◌, get_elem?, length, if_case, Bool-cases, bytes_eq,
}
use lightnfs.Nfs4.Status.{Status}
use lightnfs.Maps.{bytes, find, erase, find-erase}
use lightnfs.Sessions.Types.{Slot, Session, StateMgr, next32}
use lightnfs.Sessions.Sequence.{insert_conn}
use lightnfs.Sessions.Bind.{bind_conn, bind_found, destroy_found, destroy_session, contains}
use lightnfs.Sessions.Slots.{slot_at, slot_of, slot_at-bind}
use lightnfs.Sessions.Sized.{IsSized}
use lightnfs.Sessions.Fixed.{step-IsSized}
use lightnfs.Sessions.Begin.{request-IsOnce}
use lightnfs.Sessions.Ends.{finished-IsOnce, dropped-IsOnce}
use lightnfs.Sessions.Log.{
  Run, Event, step, run, executing, executed, IsOnce, IsConsecutive, last_seqid-length,
}

-- A manager with the same slots, or fewer.
abbrev Within : StateMgr → StateMgr → Type 0
Within m n =
    (j : List ℕ) (k : ℕ) (slot : Slot) → slot_at n j k ≡ some slot → slot_at m j k ≡ some slot

bind_found-Within :
    (m : StateMgr) (id : List ℕ) (conn : ℕ) (o : Option Session)
    → find id m.sessions ≡ o
    → Within m (bind_found m id conn o).1
unfolding bind_found
bind_found-Within m id conn none e j k slot h = h
bind_found-Within m id conn (some s) e j k slot h =
    sym (slot_at-bind m id s (insert_conn conn s.bound_conns) j k e) ∙ h

erase-Within :
    (m : StateMgr) (id : List ℕ) (j : List ℕ) (k : ℕ) (slot : Slot)
    → slot_of (find j (erase id m.sessions)) k ≡ some slot
    → slot_at m j k ≡ some slot
erase-Within m id j k slot h = elim (Bool-cases (bytes_eq id j)) [
  | inl q ↦ let gone : none ≡ some slot = rw (find-erase j id m.sessions, q) at h in cc
  | inr q ↦ rw (find-erase j id m.sessions, q) at h
]

destroy_found-Within :
    (m : StateMgr) (id : List ℕ) (conn : ℕ) (o : Option Session)
    → Within m (destroy_found m id conn o).1
unfolding destroy_found
destroy_found-Within m id conn none = λ j k slot h. h
destroy_found-Within m id conn (some s) =
    if_case (λ (r : Status × StateMgr). Within m r.1) (not (contains s.bound_conns conn))
      (λ j k slot h. h) (λ j k slot h. erase-Within m id j k slot h)

Within-IsOnce : (r : Run) (n : StateMgr) → Within r.mgr n → IsOnce r → IsOnce (record r { mgr = n })
Within-IsOnce r n w h = record { logged = λ j k slot e. h.logged j k slot (w j k slot e) }

step-IsOnce : (r : Run) (e : Event) → IsSized r.mgr.sessions → IsOnce r → IsOnce (step r e)
unfolding step bind_conn destroy_session
step-IsOnce r (Event.request id i seqid highest conn alive now) z h =
    request-IsOnce r id i seqid highest conn alive now h
step-IsOnce r (Event.finish n cache reply) z h =
    finished-IsOnce r n cache reply (get_elem? r.claims n) z h refl
step-IsOnce r (Event.drop n) z h = dropped-IsOnce r n (get_elem? r.claims n) z h refl
step-IsOnce r (Event.bind id conn) z h =
    Within-IsOnce r (bind_conn r.mgr id conn).1
      (bind_found-Within r.mgr id conn (find id r.mgr.sessions) refl) h
step-IsOnce r (Event.destroy id conn) z h =
    Within-IsOnce r (destroy_session r.mgr id conn).1
      (destroy_found-Within r.mgr id conn (find id r.mgr.sessions)) h
step-IsOnce r (Event.touch a c) z h = record { logged = h.logged }

pub run-IsOnce :
    (r : Run) (events : List Event) → IsSized r.mgr.sessions → IsOnce r → IsOnce (run r events)
unfolding run
run-IsOnce r [] z h = h
run-IsOnce r (e ∷ events) z h =
    run-IsOnce (step r e) events (step-IsSized r e z) (step-IsOnce r e z h)

-- No request was executed yet.
abbrev pub IsFresh : StateMgr → Type 0
IsFresh m =
    (j : List ℕ) (k : ℕ) (slot : Slot)
    → slot_at m j k ≡ some slot
    → (slot.seqid ≡ 0) × (slot.in_flight ≡ false) × (slot.cached ≡ false)

abbrev pub start : StateMgr → Run
start m = record { mgr = m; claims = []; log = [] }

pub start-IsOnce : (m : StateMgr) → IsFresh m → IsOnce (start m)
start-IsOnce m f = record {
  logged = λ j k slot e.
      let (new, free, empty) = f j k slot e in
      record { busy = rw free refl; consecutive = tt; last = new; keeps = empty };
}

-- Whatever requests, replies, drops, binds and destroyed sessions follow each other, from a manager
-- whose sessions have as many slots as their counts say and whose slots are fresh: the requests
-- executed on a slot have the sequence numbers 1, 2, 3 and so on (modulo 2^32) in this order, so none
-- is executed again and none is skipped; the slot's number counts them; and one request executes now,
-- with the next number, if the slot is in flight, and none if it is not.
pub run-exactly_once :
    (m : StateMgr) (events : List Event)
    → IsSized m.sessions
    → IsFresh m
    → (j : List ℕ) (k : ℕ) (slot : Slot) → slot_at (run (start m) events).mgr j k ≡ some slot
    → IsConsecutive (executed (run (start m) events).log j k)
      × (slot.seqid ≡ length (executed (run (start m) events).log j k) % 2 ^ 32)
      × (executing (run (start m) events).claims j k
          ≡ (if slot.in_flight then next32 slot.seqid ∷ [] else []))
run-exactly_once m events z f j k slot e =
    let h = (run-IsOnce (start m) events z (start-IsOnce m f)).logged j k slot e in
    (
      h.consecutive,
      h.last ∙ last_seqid-length (executed (run (start m) events).log j k) h.consecutive,
      h.busy,
    )
