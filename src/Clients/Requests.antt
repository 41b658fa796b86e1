-- ===== src/Clients/Requests.antt =====
-- SEQUENCE and the operations on sessions of src/state/state_mgr.cpp leave the tables of clients alone.
use lightnfs.Prelude.{
  ℕ, ◌≡◌, refl, ◌∙◌, Bool, true, not, Option, none, some, List, leb, ltb, get_elem?,
}
use lightnfs.Maps.{bytes, find}
use lightnfs.Sessions.Types.{Slot, Session, StateMgr}
use lightnfs.Sessions.Sequence.{
  Decision, decide, write_slot, act, on_slot, on_session, sequence_begin, update_found, update_in,
  update_slot, sequence_complete, sequence_abort, renew,
}
use lightnfs.Sessions.Bind.{bind_found, bind_conn, destroy_found, destroy_session, contains}
use lightnfs.Clients.View.{view}
use lightnfs.Clients.Tables.{if-view, heap-view, write_client-view, renew-view}
use lightnfs.Clients.Leaves.{pair_if-view}

act-view :
    (m : StateMgr) (id : List ℕ) (s : Session) (slotid : ℕ) (slot : Slot) (alive : Bool) (now : ℕ)
    (d : Decision)
    → view (act m id s slotid slot alive now d).1 ≡ view m
unfolding act write_slot
act-view m id s slotid slot alive now Decision.wait = heap-view m _ refl refl refl
act-view m id s slotid slot alive now Decision.busy = refl
act-view m id s slotid slot alive now Decision.claim =
    let m1 = write_slot m id s slotid (record slot { in_flight = true }) in
    heap-view (renew m1 s.client now) _ refl refl refl
    ∙ (renew-view m1 s.client now ∙ heap-view m m1 refl refl refl)
act-view m id s slotid slot alive now Decision.again =
    heap-view (renew m s.client now) _ refl refl refl ∙ renew-view m s.client now
act-view m id s slotid slot alive now Decision.misordered = heap-view m _ refl refl refl

on_slot-view :
    (m : StateMgr) (id : List ℕ) (s : Session) (slotid seqid : ℕ) (alive : Bool) (now : ℕ)
    (slot : Option Slot)
    → view (on_slot m id s slotid seqid alive now slot).1 ≡ view m
unfolding on_slot
on_slot-view m id s slotid seqid alive now none = refl
on_slot-view m id s slotid seqid alive now (some slot) =
    act-view m id s slotid slot alive now (decide slot seqid)

on_session-view :
    (m : StateMgr) (id : List ℕ) (slotid seqid highest conn : ℕ) (alive : Bool) (now : ℕ)
    (s : Option Session)
    → view (on_session m id slotid seqid highest conn alive now s).1 ≡ view m
unfolding on_session
on_session-view m id slotid seqid highest conn alive now none = refl
on_session-view m id slotid seqid highest conn alive now (some s) =
    pair_if-view _ _ (m.clients s.client).expired refl (
      pair_if-view _ _ (leb s.slot_count slotid) (heap-view m _ refl refl refl) (
        pair_if-view _ _ (leb s.slot_count highest) (heap-view m _ refl refl refl) (
          on_slot-view _ id _ slotid seqid alive now (get_elem? s.slots slotid)
          ∙ heap-view m _ refl refl refl)))

pub sequence_begin-view :
    (m : StateMgr) (id : List ℕ) (slotid seqid highest conn : ℕ) (alive : Bool) (now : ℕ)
    → view (sequence_begin m id slotid seqid highest conn alive now).1 ≡ view m
unfolding sequence_begin
sequence_begin-view m id slotid seqid highest conn alive now =
    on_session-view m id slotid seqid highest conn alive now (find id m.sessions)

update_found-view :
    (m : StateMgr) (id : List ℕ) (s : Session) (slotid : ℕ) (f : Slot → Slot) (slot : Option Slot)
    → view (update_found m id s slotid f slot) ≡ view m
unfolding update_found write_slot
update_found-view m id s slotid f none = refl
update_found-view m id s slotid f (some slot) = heap-view m _ refl refl refl

update_in-view :
    (m : StateMgr) (id : List ℕ) (slotid : ℕ) (f : Slot → Slot) (s : Option Session)
    → view (update_in m id slotid f s) ≡ view m
unfolding update_in
update_in-view m id slotid f none = refl
update_in-view m id slotid f (some s) =
    if-view _ _ (ltb slotid s.slot_count)
      (update_found-view m id s slotid f (get_elem? s.slots slotid)) refl

update_slot-view :
    (m : StateMgr) (id : List ℕ) (slotid : ℕ) (f : Slot → Slot)
    → view (update_slot m id slotid f) ≡ view m
unfolding update_slot
update_slot-view m id slotid f = update_in-view m id slotid f (find id m.sessions)

pub sequence_complete-view :
    (m : StateMgr) (id : List ℕ) (slotid seqid : ℕ) (cache : Bool) (reply : List ℕ)
    → view (sequence_complete m id slotid seqid cache reply) ≡ view m
unfolding sequence_complete
sequence_complete-view m id slotid seqid cache reply = update_slot-view m id slotid _

pub sequence_abort-view :
    (m : StateMgr) (id : List ℕ) (slotid : ℕ) → view (sequence_abort m id slotid) ≡ view m
unfolding sequence_abort
sequence_abort-view m id slotid = update_slot-view m id slotid _

bind_found-view :
    (m : StateMgr) (id : List ℕ) (conn : ℕ) (s : Option Session)
    → view (bind_found m id conn s).1 ≡ view m
unfolding bind_found
bind_found-view m id conn none = refl
bind_found-view m id conn (some s) = heap-view m _ refl refl refl

pub bind_conn-view : (m : StateMgr) (id : List ℕ) (conn : ℕ) → view (bind_conn m id conn).1 ≡ view m
unfolding bind_conn
bind_conn-view m id conn = bind_found-view m id conn (find id m.sessions)

destroy_found-view :
    (m : StateMgr) (id : List ℕ) (conn : ℕ) (s : Option Session)
    → view (destroy_found m id conn s).1 ≡ view m
unfolding destroy_found
destroy_found-view m id conn none = refl
destroy_found-view m id conn (some s) =
    pair_if-view _ _ (not (contains s.bound_conns conn)) refl
      (write_client-view _ s.client _ refl ∙ heap-view m _ refl refl refl)

pub destroy_session-view :
    (m : StateMgr) (id : List ℕ) (conn : ℕ) → view (destroy_session m id conn).1 ≡ view m
unfolding destroy_session
destroy_session-view m id conn = destroy_found-view m id conn (find id m.sessions)
