-- ===== src/Clients/View.antt =====
-- Which clients are registered in src/state/state_mgr.cpp, and where: what the tables of clients answer,
-- and the steps by which it changes.
use lightnfs.Prelude.{
  ℕ, ◌+◌, ◌<◌, ◌≡◌, Bool, true, false, Option, none, some, List, ◌==◌, if◌then◌else◌, bytes_eq,
  bytes_eq-eq, bytes_eq_refl, arith,
}
use lightnfs.Maps.{bytes, number, find}
use lightnfs.Clients.Types.{Registry}
use lightnfs.Sessions.Types.{Client, StateMgr}
use lightnfs.Clients.Exchange.{slot_or_new, next_clientid}

-- What the tables need of a record.
pub record Face : Type 0 where
  pub clientid : ℕ
  pub owner_id : List ℕ
  pub confirmed : Bool

abbrev pub face : Client → Face
face c = record { clientid = c.clientid; owner_id = c.owner_id; confirmed = c.confirmed }

-- `index` and `by_id` by client id, and the two places of each owner. A new id is `next_id` or above.
pub record View : Type 0 where
  pub index : ℕ → Option ℕ
  pub by_id : ℕ → Option ℕ
  pub confirmed : List ℕ → Option ℕ
  pub unconfirmed : List ℕ → Option ℕ
  pub next_id : ℕ
  pub next_rec : ℕ
  pub faces : ℕ → Face

unfoldable pub see : Registry → ℕ → (ℕ → Face) → View
unfolding find
see g next faces = record {
  index = λ id. find id g.client_idx;
  by_id = λ id. find id g.by_id;
  confirmed = λ o. (slot_or_new (find o g.by_owner)).confirmed;
  unconfirmed = λ o. (slot_or_new (find o g.by_owner)).unconfirmed;
  next_id = next;
  next_rec = g.next_rec;
  faces = faces;
}

unfoldable pub view : StateMgr → View
unfolding see next_clientid
view m = see m.registry (next_clientid m) (λ a. face (m.clients a))

abbrev pub at_id : ℕ → Option ℕ → (ℕ → Option ℕ) → ℕ → Option ℕ
at_id id v f = λ j. if id == j then v else f j

abbrev pub at_owner : List ℕ → Option ℕ → (List ℕ → Option ℕ) → List ℕ → Option ℕ
at_owner o v f = λ p. if bytes_eq o p then v else f p

abbrev pub at_rec : ℕ → Face → (ℕ → Face) → ℕ → Face
at_rec a x f = λ i. if i == a then x else f i

-- The record is registered.
abbrev pub IsIn : View → ℕ → Type 0
IsIn v a = v.index (v.faces a).clientid ≡ some a

-- A new, unconfirmed record of the owner.
unfoldable pub enrolled : View → List ℕ → View
enrolled v o = record v {
  index = at_id v.next_id (some v.next_rec) v.index;
  by_id = at_id v.next_id (some v.next_rec) v.by_id;
  unconfirmed = at_owner o (some v.next_rec) v.unconfirmed;
  next_id = v.next_id + 1;
  next_rec = v.next_rec + 1;
  faces =
      at_rec v.next_rec (record { clientid = v.next_id; owner_id = o; confirmed = false }) v.faces;
}

-- The record leaves every table.
unfoldable pub dropped : View → ℕ → View
dropped v a =
    let x = v.faces a in
    record v {
      index = at_id x.clientid none v.index;
      by_id = at_id x.clientid none v.by_id;
      confirmed = if x.confirmed then at_owner x.owner_id none v.confirmed else v.confirmed;
      unconfirmed = if x.confirmed then v.unconfirmed else at_owner x.owner_id none v.unconfirmed;
    }

-- The record moves to its owner's confirmed place.
unfoldable pub promoted : View → ℕ → View
promoted v a =
    let x = v.faces a in
    record v {
      confirmed = at_owner x.owner_id (some a) v.confirmed;
      unconfirmed = at_owner x.owner_id none v.unconfirmed;
      faces = at_rec a (record x { confirmed = true }) v.faces;
    }

pub data Move (v w : View) : Type 0 where
  enrolls : (o : List ℕ) → v.unconfirmed o ≡ none → w ≡ enrolled v o → Move v w
  drops : (a : ℕ) → IsIn v a → w ≡ dropped v a → Move v w
  promotes :
      (a : ℕ)
      → IsIn v a
      → (v.faces a).confirmed ≡ false
      → v.confirmed (v.faces a).owner_id ≡ none
      → w ≡ promoted v a
      → Move v w

pub data Moves (v : View) : View → Type 0 where
  here : Moves v v
  then_move : {w x : View} → Moves v w → Move w x → Moves v x

-- The tables agree with the records and with each other.
pub record IsConsistent (v : View) : Type 0 where
  pub by_id : (id : ℕ) → v.by_id id ≡ v.index id
  pub named : (id a : ℕ) → v.index id ≡ some a → ((v.faces a).clientid ≡ id) × (a < v.next_rec)
  pub below : (id a : ℕ) → v.index id ≡ some a → id < v.next_id
  pub in_confirmed :
      (a : ℕ) → IsIn v a → (v.faces a).confirmed ≡ true → v.confirmed (v.faces a).owner_id ≡ some a
  pub in_unconfirmed :
      (a : ℕ)
      → IsIn v a
      → (v.faces a).confirmed ≡ false
      → v.unconfirmed (v.faces a).owner_id ≡ some a
  pub of_confirmed :
      (o : List ℕ) (a : ℕ)
      → v.confirmed o ≡ some a
      → IsIn v a × ((v.faces a).owner_id ≡ o) × ((v.faces a).confirmed ≡ true)
  pub of_unconfirmed :
      (o : List ℕ) (a : ℕ)
      → v.unconfirmed o ≡ some a
      → IsIn v a × ((v.faces a).owner_id ≡ o) × ((v.faces a).confirmed ≡ false)

module _ (v : View) (c : IsConsistent v) where
  pub enrolled-IsConsistent : (o : List ℕ) → v.unconfirmed o ≡ none → IsConsistent (enrolled v o)
  unfolding enrolled
  enrolled-IsConsistent o e = record {
    by_id = λ id. ground (arith, c.by_id id);
    named = λ id a h. ground (arith, c.named id a);
    below = λ id a h. ground (arith, c.below id a);
    in_confirmed = λ a h q. ground (arith, c.in_confirmed a);
    in_unconfirmed = λ a h q.
        ground (arith, c.in_unconfirmed a, bytes_eq-eq o (v.faces a).owner_id, bytes_eq_refl o);
    of_confirmed = λ p a h. ground (
      arith,
      c.of_confirmed p a h,
      c.below (v.faces a).clientid a,
      c.named (v.faces a).clientid a,
    );
    of_unconfirmed = λ p a h. ground (
      arith,
      c.of_unconfirmed p a,
      bytes_eq-eq o p,
      c.below (v.faces a).clientid a,
      c.named (v.faces a).clientid a,
    );
  }

  -- Two registered records with one id are one.
  same_record :
      (a b : ℕ) → IsIn v a → IsIn v b → (v.faces a).clientid ≡ (v.faces b).clientid → a ≡ b
  same_record a b p q e = ground arith

  pub dropped-IsConsistent : (a : ℕ) → IsIn v a → IsConsistent (dropped v a)
  unfolding dropped
  dropped-IsConsistent a h = record {
    by_id = λ id. ground (arith, c.by_id id);
    named = λ id b k. ground (arith, c.named id b);
    below = λ id b k. ground (arith, c.below id b);
    in_confirmed = λ b k q. ground (
      arith,
      c.in_confirmed b,
      c.in_confirmed a,
      bytes_eq-eq (v.faces a).owner_id (v.faces b).owner_id,
    );
    in_unconfirmed = λ b k q. ground (
      arith,
      c.in_unconfirmed b,
      c.in_unconfirmed a,
      bytes_eq-eq (v.faces a).owner_id (v.faces b).owner_id,
    );
    of_confirmed = λ p b k. ground (arith, c.of_confirmed p b, same_record a b, bytes_eq_refl p);
    of_unconfirmed =
        λ p b k. ground (arith, c.of_unconfirmed p b, same_record a b, bytes_eq_refl p);
  }

  pub promoted-IsConsistent :
      (a : ℕ)
      → IsIn v a
      → (v.faces a).confirmed ≡ false
      → v.confirmed (v.faces a).owner_id ≡ none
      → IsConsistent (promoted v a)
  unfolding promoted
  promoted-IsConsistent a h u n = record {
    by_id = λ id. c.by_id id;
    named = λ id b k. ground (arith, c.named id b);
    below = λ id b k. c.below id b k;
    in_confirmed = λ b k q. ground (
      arith,
      c.in_confirmed b,
      bytes_eq-eq (v.faces a).owner_id (v.faces b).owner_id,
      bytes_eq_refl (v.faces a).owner_id,
    );
    in_unconfirmed = λ b k q. ground (
      arith,
      c.in_unconfirmed b,
      c.in_unconfirmed a,
      bytes_eq-eq (v.faces a).owner_id (v.faces b).owner_id,
    );
    of_confirmed = λ p b k. ground (arith, c.of_confirmed p b, bytes_eq-eq (v.faces a).owner_id p);
    of_unconfirmed = λ p b k.
        ground
          (arith, c.of_unconfirmed p b, c.in_unconfirmed a, bytes_eq_refl (v.faces a).owner_id);
  }

pub Move-IsConsistent : {v w : View} → IsConsistent v → Move v w → IsConsistent w
Move-IsConsistent {v} c (enrolls o e q) = rw q (enrolled-IsConsistent v c o e)
Move-IsConsistent {v} c (drops a h q) = rw q (dropped-IsConsistent v c a h)
Move-IsConsistent {v} c (promotes a h u n q) = rw q (promoted-IsConsistent v c a h u n)

pub Moves-IsConsistent : {v w : View} → IsConsistent v → Moves v w → IsConsistent w
Moves-IsConsistent c here = c
Moves-IsConsistent c (then_move ms m) = Move-IsConsistent (Moves-IsConsistent c ms) m

pub Moves-trans : {v w x : View} → Moves v w → Moves w x → Moves v x
Moves-trans ms here = ms
Moves-trans ms (then_move ns n) = then_move (Moves-trans ms ns) n
