-- ===== src/Sessions/Ends.antt =====
-- `sequence_complete` and `sequence_abort` of src/state/state_mgr.cpp, as a request ends.
use mathlib.Core.Option
use lightnfs.Prelude.{
  ℕ, zero, suc, ◌≡◌, ◌≢◌, inl, inr, refl, ap, sym, ◌∙◌, Bool, true, false, Option, none, some, List,
  [], ◌∷◌, get_elem?, arith, Bool-cases,
}
use lightnfs.Maps.{bytes}
use lightnfs.Sessions.Types.{Slot, next32}
use lightnfs.Sessions.Sequence.{sequence_abort, sequence_complete, completed}
use lightnfs.Sessions.Slots.{slot_at, same_slot}
use lightnfs.Sessions.Sized.{IsSized}
use lightnfs.Sessions.Steps.{slot_at-update_slot}
use lightnfs.Sessions.Log.{
  Claim, Done, Run, remove_at, finished, dropped, executing, executed, last_seqid, IsConsecutive,
  IsLogged, IsOnce,
}

-- The claim that `finish` and `drop` take away.
executing-remove_at_ne :
    (claims : List Claim) (n : ℕ) (c : Claim) (j : List ℕ) (k : ℕ)
    → get_elem? claims n ≡ some c
    → same_slot c.id c.slotid j k ≡ false
    → executing (remove_at claims n) j k ≡ executing claims j k
executing-remove_at_ne [] n c j k e q = refl
executing-remove_at_ne (d ∷ claims) zero c j k e q =
    let same : d ≡ c = cc in
    let other = ap (λ (x : Claim). same_slot x.id x.slotid j k) same ∙ q in rw other
executing-remove_at_ne (d ∷ claims) (suc n) c j k e q =
    ground (arith, executing-remove_at_ne claims n c j k e q)

executing-ne-nil :
    (claims : List Claim) (n : ℕ) (c : Claim) (j : List ℕ) (k : ℕ)
    → get_elem? claims n ≡ some c
    → same_slot c.id c.slotid j k ≡ true
    → executing claims j k ≢ []
executing-ne-nil [] n c j k e q h = cc
executing-ne-nil (d ∷ claims) zero c j k e q h =
    let same : d ≡ c = cc in
    let mine = ap (λ (x : Claim). same_slot x.id x.slotid j k) same ∙ q in ground (arith, mine)
executing-ne-nil (d ∷ claims) (suc n) c j k e q h =
    ground (arith, executing-ne-nil claims n c j k e q)

-- If one request executes on the slot, it is the one taken away.
executing-remove_at_self :
    (claims : List Claim) (n : ℕ) (c : Claim) (j : List ℕ) (k x : ℕ)
    → get_elem? claims n ≡ some c
    → same_slot c.id c.slotid j k ≡ true
    → executing claims j k ≡ x ∷ []
    → (c.seqid ≡ x) × (executing (remove_at claims n) j k ≡ [])
executing-remove_at_self [] n c j k x e q h = cc
executing-remove_at_self (d ∷ claims) zero c j k x e q h =
    let same : d ≡ c = cc in
    let mine = ap (λ (y : Claim). same_slot y.id y.slotid j k) same ∙ q in
    let one : d.seqid ∷ executing claims j k ≡ x ∷ [] = rw mine at h in
    (ap (λ (y : Claim). y.seqid) (sym same) ∙ cc, cc)
executing-remove_at_self (d ∷ claims) (suc n) c j k x e q h =
    elim (Bool-cases (same_slot d.id d.slotid j k)) [
      | inl p ↦
          let one : d.seqid ∷ executing claims j k ≡ x ∷ [] = rw p at h in
          absurd (executing-ne-nil claims n c j k e q cc)
      | inr p ↦ rw p (executing-remove_at_self claims n c j k x e q (rw p at h))
    ]

-- What a step on a session leaves for a slot, from what it found there.
IsLogged-other :
    (slot : Slot) (xs ys : List ℕ) (log : List Done)
    → xs ≡ ys
    → IsLogged slot ys log
    → IsLogged slot xs log
IsLogged-other slot xs ys log e h = record {
  busy = e ∙ h.busy;
  consecutive = h.consecutive;
  last = h.last;
  keeps = h.keeps;
}

-- The slot of a request that ends: what was logged of it, and what is.
end-IsLogged :
    (slot : Slot) (c : Claim) (cache : Bool) (reply : List ℕ) (log : List Done)
    → c.seqid ≡ next32 slot.seqid
    → IsConsecutive log
    → slot.seqid ≡ last_seqid log
    → IsLogged
        (completed c.seqid cache reply)
        []
        (record { claim = c; cached = cache; reply = reply } ∷ log)
end-IsLogged slot c cache reply log e consecutive last = record {
  busy = refl;
  consecutive = (e ∙ ap next32 last, consecutive);
  last = refl;
  keeps = (refl, refl);
}

-- A request that executes finds its slot in flight, alone, one number behind.
alone :
    (slot : Slot) (claims : List Claim) (n : ℕ) (c : Claim) (j : List ℕ) (k : ℕ) (log : List Done)
    → get_elem? claims n ≡ some c
    → same_slot c.id c.slotid j k ≡ true
    → IsLogged slot (executing claims j k) log
    → (c.seqid ≡ next32 slot.seqid) × (executing (remove_at claims n) j k ≡ [])
alone slot claims n c j k log e q h = elim (Bool-cases slot.in_flight) [
  | inl b ↦
      let one : executing claims j k ≡ next32 slot.seqid ∷ [] = rw b at h.busy in
      executing-remove_at_self claims n c j k (next32 slot.seqid) e q one
  | inr b ↦
      let nobody : executing claims j k ≡ [] = rw b at h.busy in
      absurd (executing-ne-nil claims n c j k e q nobody)
]

map-some :
    (f : Slot → Slot) (o : Option Slot) (b : Slot)
    → Option.map f o ≡ some b
    → (a : Slot) × (o ≡ some a) × (f a ≡ b)
map-some f none b h = cc
map-some f (some a) b h = (a, refl, cc)

pub finished-IsOnce :
    (r : Run) (n : ℕ) (cache : Bool) (reply : List ℕ) (o : Option Claim)
    → IsSized r.mgr.sessions
    → IsOnce r
    → get_elem? r.claims n ≡ o
    → IsOnce (finished r n cache reply o)
unfolding finished sequence_complete
finished-IsOnce r n cache reply none z h e = h
finished-IsOnce r n cache reply (some c) z h e =
    let f = λ (slot : Slot). completed c.seqid cache reply in
    record {
      logged = λ j k slot' found.
          let updated = sym (slot_at-update_slot r.mgr c.id c.slotid f j k z) ∙ found in
          elim (Bool-cases (same_slot c.id c.slotid j k)) [
            | inl q ↦
                let (slot, there, ended) = map-some f (slot_at r.mgr j k) slot' (rw q at updated) in
                let old = h.logged j k slot there in
                let (next, gone) = alone slot r.claims n c j k (executed r.log j k) e q old in
                rw (q, gone, ← ended)
                  (end-IsLogged slot c cache reply (executed r.log j k) next old.consecutive
                    old.last)
            | inr q ↦ rw q (
                IsLogged-other slot' (executing (remove_at r.claims n) j k) (executing r.claims j k)
                  (executed r.log j k) (executing-remove_at_ne r.claims n c j k e q)
                  (h.logged j k slot' (rw q at updated)))
          ];
    }

pub dropped-IsOnce :
    (r : Run) (n : ℕ) (o : Option Claim)
    → IsSized r.mgr.sessions
    → IsOnce r
    → get_elem? r.claims n ≡ o
    → IsOnce (dropped r n o)
unfolding dropped sequence_abort
dropped-IsOnce r n none z h e = h
dropped-IsOnce r n (some c) z h e =
    let f = λ (slot : Slot). record slot { in_flight = false } in
    record {
      logged = λ j k slot' found.
          let updated = sym (slot_at-update_slot r.mgr c.id c.slotid f j k z) ∙ found in
          elim (Bool-cases (same_slot c.id c.slotid j k)) [
            | inl q ↦
                let (slot, there, ended) = map-some f (slot_at r.mgr j k) slot' (rw q at updated) in
                let old = h.logged j k slot there in
                let (next, gone) = alone slot r.claims n c j k (executed r.log j k) e q old in
                rw (gone, ← ended)
                  (record {
                    busy = refl;
                    consecutive = old.consecutive;
                    last = old.last;
                    keeps = old.keeps;
                  })
            | inr q ↦
                IsLogged-other slot' (executing (remove_at r.claims n) j k) (executing r.claims j k)
                  (executed r.log j k) (executing-remove_at_ne r.claims n c j k e q)
                  (h.logged j k slot' (rw q at updated))
          ];
    }
