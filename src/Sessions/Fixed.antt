-- ===== src/Sessions/Fixed.antt =====
-- The operations of src/state/state_mgr.cpp on sessions, and the number of slots.
use lightnfs.Prelude.{
  ℕ, ◌≡◌, refl, sym, ◌∙◌, Bool, true, false, Option, none, some, List, ltb, leb, not, get_elem?,
  set, length, length-set, if_case,
}
use lightnfs.Maps.{bytes, find, put}
use lightnfs.Sessions.Types.{Slot, Session, StateMgr}
use lightnfs.Sessions.Sequence.{
  Decision, decide, renew, write_slot, act, on_slot, on_session, sequence_begin, update_found,
  update_in, update_slot, insert_conn, sequence_abort, sequence_complete, completed,
}
use lightnfs.Sessions.Bind.{bind_conn, bind_found, destroy_found, destroy_session, contains}
use lightnfs.Sessions.Slots.{sessions-renew}
use lightnfs.Sessions.Sized.{IsSized, put-IsSized, erase-IsSized}
use lightnfs.Sessions.Log.{Claim, Run, Event, finished, dropped, step}

write_slot-IsSized :
    (m : StateMgr) (id : List ℕ) (s : Session) (i : ℕ) (slot : Slot)
    → s.slot_count ≡ length s.slots
    → IsSized m.sessions
    → IsSized (write_slot m id s i slot).sessions
unfolding write_slot
write_slot-IsSized m id s i slot h z =
    put-IsSized m.sessions id (record s { slots = set s.slots i slot })
      (h ∙ sym (length-set s.slots i slot)) z

renew-IsSized : (m : StateMgr) (a now : ℕ) → IsSized m.sessions → IsSized (renew m a now).sessions
renew-IsSized m a now z = rw (sessions-renew m a now) z

abbrev SizedAfter : {A : Type 0} → A × StateMgr → Type 0
SizedAfter r = IsSized r.1.sessions

module _ (m : StateMgr) (id : List ℕ) (s : Session) (i : ℕ) (alive : Bool) (now : ℕ)
    (h : s.slot_count ≡ length s.slots) (z : IsSized m.sessions) where
  act-IsSized : (slot : Slot) (d : Decision) → SizedAfter (act m id s i slot alive now d)
  unfolding act
  act-IsSized slot Decision.wait = z
  act-IsSized slot Decision.busy = z
  act-IsSized slot Decision.claim =
      renew-IsSized (write_slot m id s i (record slot { in_flight = true })) s.client now
        (write_slot-IsSized m id s i (record slot { in_flight = true }) h z)
  act-IsSized slot Decision.again = renew-IsSized m s.client now z
  act-IsSized slot Decision.misordered = z

  on_slot-IsSized : (seqid : ℕ) (o : Option Slot) → SizedAfter (on_slot m id s i seqid alive now o)
  unfolding on_slot
  on_slot-IsSized seqid none = z
  on_slot-IsSized seqid (some slot) = act-IsSized slot (decide slot seqid)

on_session-IsSized :
    (m : StateMgr) (id : List ℕ) (i seqid highest conn : ℕ) (alive : Bool) (now : ℕ)
    → IsSized m.sessions
    → (o : Option Session) → find id m.sessions ≡ o
    → SizedAfter (on_session m id i seqid highest conn alive now o)
unfolding on_session
on_session-IsSized m id i seqid highest conn alive now z none e = z
on_session-IsSized m id i seqid highest conn alive now z (some s) e =
    let s' = record s { bound_conns = insert_conn conn s.bound_conns } in
    let m' = record m { sessions = put id s' m.sessions } in
    let z' = put-IsSized m.sessions id s' (z.sized id s e) z in
    if_case SizedAfter (m.clients s.client).expired z (
      if_case SizedAfter (leb s.slot_count i) z' (
        if_case SizedAfter (leb s.slot_count highest) z'
          (on_slot-IsSized m' id s' i alive now (z.sized id s e) z' seqid (get_elem? s.slots i))))

module _ (m : StateMgr) (id : List ℕ) (i : ℕ) (f : Slot → Slot) (z : IsSized m.sessions) where
  update_found-IsSized :
      (s : Session) (o : Option Slot)
      → s.slot_count ≡ length s.slots
      → IsSized (update_found m id s i f o).sessions
  unfolding update_found
  update_found-IsSized s none h = z
  update_found-IsSized s (some slot) h = write_slot-IsSized m id s i (f slot) h z

  update_in-IsSized :
      (o : Option Session) → find id m.sessions ≡ o → IsSized (update_in m id i f o).sessions
  unfolding update_in
  update_in-IsSized none e = z
  update_in-IsSized (some s) e =
      if_case (λ (n : StateMgr). IsSized n.sessions) (ltb i s.slot_count)
        (update_found-IsSized s (get_elem? s.slots i) (z.sized id s e)) z

  update_slot-IsSized : IsSized (update_slot m id i f).sessions
  unfolding update_slot
  update_slot-IsSized = update_in-IsSized (find id m.sessions) refl

bind_found-IsSized :
    (m : StateMgr) (id : List ℕ) (conn : ℕ)
    → IsSized m.sessions
    → (o : Option Session) → find id m.sessions ≡ o
    → SizedAfter (bind_found m id conn o)
unfolding bind_found
bind_found-IsSized m id conn z none e = z
bind_found-IsSized m id conn z (some s) e =
    put-IsSized m.sessions id (record s { bound_conns = insert_conn conn s.bound_conns })
      (z.sized id s e) z

destroy_found-IsSized :
    (m : StateMgr) (id : List ℕ) (conn : ℕ)
    → IsSized m.sessions
    → (o : Option Session) → SizedAfter (destroy_found m id conn o)
unfolding destroy_found
destroy_found-IsSized m id conn z none = z
destroy_found-IsSized m id conn z (some s) =
    if_case SizedAfter (not (contains s.bound_conns conn)) z (erase-IsSized m.sessions id z)

finished-IsSized :
    (r : Run) (n : ℕ) (cache : Bool) (reply : List ℕ)
    → IsSized r.mgr.sessions
    → (o : Option Claim) → IsSized (finished r n cache reply o).mgr.sessions
unfolding finished sequence_complete
finished-IsSized r n cache reply z none = z
finished-IsSized r n cache reply z (some c) =
    update_slot-IsSized r.mgr c.id c.slotid (λ slot. completed c.seqid cache reply) z

dropped-IsSized :
    (r : Run) (n : ℕ)
    → IsSized r.mgr.sessions
    → (o : Option Claim) → IsSized (dropped r n o).mgr.sessions
unfolding dropped sequence_abort
dropped-IsSized r n z none = z
dropped-IsSized r n z (some c) =
    update_slot-IsSized r.mgr c.id c.slotid (λ slot. record slot { in_flight = false }) z

pub step-IsSized : (r : Run) (e : Event) → IsSized r.mgr.sessions → IsSized (step r e).mgr.sessions
unfolding step sequence_begin bind_conn destroy_session
step-IsSized r (Event.request id i seqid highest conn alive now) z =
    on_session-IsSized r.mgr id i seqid highest conn alive now z (find id r.mgr.sessions) refl
step-IsSized r (Event.finish n cache reply) z =
    finished-IsSized r n cache reply z (get_elem? r.claims n)
step-IsSized r (Event.drop n) z = dropped-IsSized r n z (get_elem? r.claims n)
step-IsSized r (Event.bind id conn) z =
    bind_found-IsSized r.mgr id conn z (find id r.mgr.sessions) refl
step-IsSized r (Event.destroy id conn) z =
    destroy_found-IsSized r.mgr id conn z (find id r.mgr.sessions)
step-IsSized r (Event.touch a c) z = z
