-- ===== src/Sessions/Begin.antt =====
-- `sequence_begin` of src/state/state_mgr.cpp, as a request claims its slot.
use lightnfs.Prelude.{
  ℕ, ◌≡◌, inl, inr, ap, sym, ◌∙◌, Bool, true, false, some, List, [], ◌∷◌, arith, Bool-cases,
}
use lightnfs.Maps.{bytes}
use lightnfs.Sessions.Types.{Slot, next32}
use lightnfs.Sessions.Sequence.{Decision, decide}
use lightnfs.Sessions.Slots.{same_slot}
use lightnfs.Sessions.Steps.{sequence_begin-Round, slot_at_same}
use lightnfs.Sessions.Log.{Done, Run, Event, step, executing, executed, IsLogged, IsOnce}

pub decide-claim :
    (slot : Slot) (seqid : ℕ)
    → decide slot seqid ≡ Decision.claim
    → (slot.in_flight ≡ false) × (seqid ≡ next32 slot.seqid)
unfolding decide
decide-claim slot seqid h = ground arith

some_inj : {a b : Slot} → some a ≡ some b → a ≡ b
some_inj h = cc

claim-IsLogged :
    (slot : Slot) (xs : List ℕ) (log : List Done) (seqid : ℕ)
    → decide slot seqid ≡ Decision.claim
    → IsLogged slot xs log
    → IsLogged (record slot { in_flight = true }) (seqid ∷ xs) log
claim-IsLogged slot xs log seqid d h =
    let (free, expected) = decide-claim slot seqid d in
    let none_busy : xs ≡ [] = rw free at h.busy in
    record {
      busy =
          ap (λ (x : ℕ). x ∷ xs) expected ∙ ap (λ (ys : List ℕ). next32 slot.seqid ∷ ys) none_busy;
      consecutive = h.consecutive;
      last = h.last;
      keeps = h.keeps;
    }

pub request-IsOnce :
    (r : Run) (id : List ℕ) (i seqid highest conn : ℕ) (alive : Bool) (now : ℕ)
    → IsOnce r
    → IsOnce (step r (Event.request id i seqid highest conn alive now))
unfolding step
request-IsOnce r id i seqid highest conn alive now h =
    elim (sequence_begin-Round r.mgr id i seqid highest conn alive now) [
      | inl (quiet, same) ↦ record {
        logged = λ j k slot e. rw quiet (h.logged j k slot (sym (same j k) ∙ e));
      }
      | inr (slot, f, d, claims, same) ↦ record {
        logged = λ j k slot' e. rw claims (elim (Bool-cases (same_slot id i j k)) [
          | inl q ↦
              let now_busy : some (record slot { in_flight = true }) ≡ some slot' =
                cc (sym (same j k), e, q) in
              let found = slot_at_same r.mgr id i j k q ∙ f in
              rw q (
                rw (← some_inj now_busy) (
                  claim-IsLogged slot (executing r.claims j k) (executed r.log j k) seqid d
                    (h.logged j k slot found)))
          | inr q ↦ rw q (h.logged j k slot' (cc (sym (same j k), e, q)))
        ]);
      }
    ]
