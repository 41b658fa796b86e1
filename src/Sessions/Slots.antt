-- ===== src/Sessions/Slots.antt =====
-- Which slots an operation of src/state/state_mgr.cpp on a session changes.
use lightnfs.Prelude.{
  ℕ, zero, suc, ◌≡◌, ◌⊎◌, inl, inr, refl, ap, sym, ◌∙◌, Bool, true, false, ◌&&◌, not, Option, none,
  some, List, [], ◌∷◌, ◌==◌, if◌then◌else◌, get_elem?, set, arith, bytes_eq, bytes_eq-eq,
  Bool-cases,
}
use lightnfs.Nfs4.Status.{Status, ◌≟◌}
use lightnfs.Maps.{bytes, find, put, find-put}
use lightnfs.Sessions.Types.{Slot, Session, StateMgr}
use lightnfs.Sessions.Sequence.{
  renew, Decision, decide, write_slot, act, replayed, Verdict, parked, answer,
}

abbrev pub slot_of : Option Session → ℕ → Option Slot
slot_of none i = none
slot_of (some s) i = get_elem? s.slots i

-- The slot `i` of the session `id`.
abbrev pub slot_at : StateMgr → List ℕ → ℕ → Option Slot
slot_at m id i = slot_of (find id m.sessions) i

abbrev pub same_slot : List ℕ → ℕ → List ℕ → ℕ → Bool
same_slot id i j k = bytes_eq id j && (i == k)

get_elem?-set :
    {A : Type 0} (xs : List A) (i k : ℕ) (v w : A)
    → get_elem? xs i ≡ some w
    → get_elem? (set xs i v) k ≡ (if i == k then some v else get_elem? xs k)
get_elem?-set [] i k v w h = cc
get_elem?-set (x ∷ xs) zero zero v w h = refl
get_elem?-set (x ∷ xs) zero (suc k) v w h = ground arith
get_elem?-set (x ∷ xs) (suc i) zero v w h = ground arith
get_elem?-set (x ∷ xs) (suc i) (suc k) v w h = get_elem?-set xs i k v w h ∙ ground arith

-- A session of the table, and its slot written.
pub slot_at-write_slot :
    (m : StateMgr) (id : List ℕ) (s : Session) (i : ℕ) (slot old : Slot)
    → (j : List ℕ) (k : ℕ) → get_elem? s.slots i ≡ some old
    → slot_of (find id m.sessions) k ≡ get_elem? s.slots k
    → slot_at (write_slot m id s i slot) j k
      ≡ (if same_slot id i j k then some slot else slot_at m j k)
unfolding write_slot
slot_at-write_slot m id s i slot old j k h e =
    rw (find-put j id (record s { slots = set s.slots i slot }) m.sessions)
      (elim (Bool-cases (bytes_eq id j)) [
        | inl q ↦ rw q (
            get_elem?-set s.slots i k slot old h
            ∙ ap (λ (o : Option Slot). if i == k then some slot else o)
                (sym e ∙ ap (λ (x : List ℕ). slot_at m x k) (bytes_eq-eq id j q)))
        | inr q ↦ rw q
      ])

-- Renewal touches no slot.
pub sessions-renew : (m : StateMgr) (a now : ℕ) → (renew m a now).sessions ≡ m.sessions
unfolding renew
sessions-renew m a now = ground arith

-- A session of the table, with another connection bound, has the same slots.
pub slot_at-bind :
    (m : StateMgr) (id : List ℕ) (s : Session) (conns : List ℕ) (j : List ℕ) (k : ℕ)
    → find id m.sessions ≡ some s
    → slot_at (record m { sessions = put id (record s { bound_conns = conns }) m.sessions }) j k
      ≡ slot_at m j k
slot_at-bind m id s conns j k f =
    rw (find-put j id (record s { bound_conns = conns }) m.sessions)
      (elim (Bool-cases (bytes_eq id j)) [
        | inl q ↦ rw q (
            ap (λ (o : Option Session). slot_of o k) (sym f)
            ∙ ap (λ (x : List ℕ). slot_at m x k) (bytes_eq-eq id j q))
        | inr q ↦ rw q
      ])

-- An answer that tells the caller to execute the request.
unfoldable pub is_claim : Verdict → Bool
unfolding ◌≟◌
is_claim parked = false
is_claim (answer r) = r.status ≟ Status.ok && not r.replay

abbrev pub Unchanged : StateMgr → StateMgr → Type 0
Unchanged m n = (j : List ℕ) (k : ℕ) → slot_at n j k ≡ slot_at m j k

-- A round either claims its slot, which was free and expected this request, or claims nothing and
-- changes no slot.
abbrev pub Round : StateMgr → List ℕ → ℕ → ℕ → Verdict × StateMgr → Type 0
Round m id i seqid r =
    ((is_claim r.0 ≡ false) × Unchanged m r.1)
    ⊎ ((slot : Slot) × (slot_at m id i ≡ some slot)
        × (decide slot seqid ≡ Decision.claim)
        × (is_claim r.0 ≡ true)
        × ((j : List ℕ) (k : ℕ)
            → slot_at r.1 j k ≡ (
                if same_slot id i j k
                then some (record slot { in_flight = true })
                else slot_at m j k)))

pub is_claim-replayed : (slot : Slot) → is_claim (answer (replayed slot)) ≡ false
unfolding is_claim replayed
is_claim-replayed slot = ground arith

module _ (m : StateMgr) (id : List ℕ) (s : Session) (i : ℕ) (slot : Slot) (alive : Bool)
    (now seqid : ℕ) (f : slot_of (find id m.sessions) i ≡ some slot)
    (g : (k : ℕ) → slot_of (find id m.sessions) k ≡ get_elem? s.slots k) where
  pub act-Round :
      (d : Decision) → decide slot seqid ≡ d → Round m id i seqid (act m id s i slot alive now d)
  unfolding act is_claim
  act-Round Decision.wait e = inl (refl, λ j k. refl)
  act-Round Decision.busy e = inl (refl, λ j k. refl)
  act-Round Decision.claim e = inr (
    slot,
    f,
    e,
    refl,
    λ j k.
        ap (λ (t : List (List ℕ × Session)). slot_of (find j t) k)
          (sessions-renew (write_slot m id s i (record slot { in_flight = true })) s.client now)
        ∙ slot_at-write_slot m id s i (record slot { in_flight = true }) slot j k (sym (g i) ∙ f)
            (g k),
  )
  act-Round Decision.again e = inl (
    is_claim-replayed slot,
    λ j k.
        ap (λ (t : List (List ℕ × Session)). slot_of (find j t) k) (sessions-renew m s.client now),
  )
  act-Round Decision.misordered e = inl (refl, λ j k. refl)
