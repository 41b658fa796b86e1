-- ===== src/Clients/Moves.antt =====
-- The operations on clients in src/state/state_mgr.cpp as moves of the view of the tables.
use mathlib.Core.Path.{subst}
use lightnfs.Prelude.{
  ℕ, ◌≡◌, ◌≢◌, refl, sym, ap, ◌∙◌, Bool, true, false, Option, none, some, List, if◌then◌else◌,
  Bool-cases, inl, inr, ==_iff, ==_refl,
}
use lightnfs.Maps.{bytes, number}
use lightnfs.Clients.Types.{points}
use lightnfs.Sessions.Types.{StateMgr}
use lightnfs.Clients.Exchange.{unregister}
use lightnfs.Clients.View.{
  View, view, at_id, at_owner, IsIn, dropped, Move, Moves, here, then_move, IsConsistent,
}
use lightnfs.Clients.Tables.{unregister-view, at_owner-same, left}

not_both : {b : Bool} → b ≡ true → b ≡ false → ⊥
not_both p q = cc

leaves :
    (o : List ℕ) (a : ℕ) (f : List ℕ → Option ℕ)
    → f o ≡ some a
    → at_owner o (if points (f o) a then none else f o) f ≡ at_owner o none f
leaves o a f h = rw (h, ==_refl a)

pub points-eq : (v : Option ℕ) (a : ℕ) → points v a ≡ true → v ≡ some a
points-eq none a h = cc
points-eq (some b) a h = ap some ((==_iff b a).0 h)

keeps :
    (o : List ℕ) (a : ℕ) (f : List ℕ → Option ℕ)
    → (f o ≢ some a)
    → at_owner o (if points (f o) a then none else f o) f ≡ f
keeps o a f h = elim (Bool-cases (points (f o) a)) [
  | inl q ↦ absurd (h (points-eq (f o) a q))
  | inr q ↦ rw q (at_owner-same o (f o) f refl)
]

-- Leaving the owner's slot and the other tables is to leave them all.
left-dropped :
    (v : View) (a : ℕ)
    → IsConsistent v
    → IsIn v a
    → record (left v (v.faces a).owner_id a) {
      index = at_id (v.faces a).clientid none v.index;
      by_id = at_id (v.faces a).clientid none v.by_id;
    }
      ≡ dropped v a
unfolding dropped
left-dropped v a c h = elim (Bool-cases (v.faces a).confirmed) [
  | inl q ↦
      let here = c.in_confirmed a h q in
      rw (
        q,
        leaves (v.faces a).owner_id a v.confirmed here,
        keeps (v.faces a).owner_id a v.unconfirmed
            (λ e. not_both q (c.of_unconfirmed (v.faces a).owner_id a e).2),
      )
  | inr q ↦
      let here = c.in_unconfirmed a h q in
      rw (
        q,
        leaves (v.faces a).owner_id a v.unconfirmed here,
        keeps (v.faces a).owner_id a v.confirmed
            (λ e. not_both (c.of_confirmed (v.faces a).owner_id a e).2 q),
      )
]

pub one : {v w : View} → Move v w → Moves v w
one m = then_move here m

pub stay : {v w : View} → w ≡ v → Moves v w
stay {v} e = subst (Moves v) (sym e) here

-- A record that has left its owner's slot leaves the other tables.
pub unregister-dropped :
    (m n : StateMgr) (a : ℕ)
    → IsConsistent (view m)
    → IsIn (view m) a
    → view n ≡ left (view m) ((view m).faces a).owner_id a
    → view (unregister n ((view m).faces a).clientid) ≡ dropped (view m) a
unregister-dropped m n a c h e =
    unregister-view n ((view m).faces a).clientid
    ∙ (ap
          (λ (w : View). record w {
            index = at_id ((view m).faces a).clientid none w.index;
            by_id = at_id ((view m).faces a).clientid none w.by_id;
          })
          e
        ∙ left-dropped (view m) a c h)
