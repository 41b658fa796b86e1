-- ===== src/Clients/Granted.antt =====
-- A CREATE_SESSION of src/state/state_mgr.cpp that is granted: what its client looks like afterwards.
use mathlib.Core.Path.{subst}
use lightnfs.Prelude.{
  ℕ, ◌+◌, ◌≡◌, refl, sym, ap, ◌∙◌, Bool, true, false, Option, none, some, List, ◌==◌, ==_iff,
  ==_refl, bytes_eq_refl, if◌then◌else◌, Bool-cases, inl, inr, arith,
}
use lightnfs.Maps.{bytes, number}
use lightnfs.Clients.Types.{OwnerSlot}
use lightnfs.Sessions.Types.{Client, StateMgr, next32}
use lightnfs.Sessions.Sequence.{write_client, renew, arm_lease_check, armed_by}
use lightnfs.Clients.Exchange.{find_client, set_slot, unregister}
use lightnfs.Clients.Session.{
  CreateArgs, join_session, bury, other_than, bury_old, confirm_in, slot_of, old_incarnation,
  add_session, confirm_client, grant_session, session_id,
}
use lightnfs.Clients.View.{View, see, view, IsIn, IsConsistent, Moves-IsConsistent}
use lightnfs.Clients.Tables.{armed-tables, renew-tables}
use lightnfs.Clients.Confirms.{
  drop_incarnation-Kept, confirm_client-Moves, grant_session-view, confirm-seated, claims,
}

-- What CREATE_SESSION keeps of a client from one request to the next.
pub record Core : Type 0 where
  pub clientid : ℕ
  pub confirmed : Bool
  pub cs_sequence : ℕ
  pub cs_cached_reply : List ℕ
  pub expired : Bool

abbrev pub core : Client → Core
core c = record {
  clientid = c.clientid;
  confirmed = c.confirmed;
  cs_sequence = c.cs_sequence;
  cs_cached_reply = c.cs_cached_reply;
  expired = c.expired;
}

write-core :
    (m : StateMgr) (a i : ℕ) (c : Client)
    → core c ≡ core (m.clients a)
    → core ((write_client m a c).clients i) ≡ core (m.clients i)
write-core m a i c h = elim (Bool-cases (i == a)) [
  | inl q ↦ rw q (rw ((==_iff i a).0 q) h)
  | inr q ↦ rw q
]

pub if-core :
    (b : Bool) (x y : StateMgr) (i : ℕ) {c : Core}
    → core (x.clients i) ≡ c
    → core (y.clients i) ≡ c
    → core ((if b then x else y).clients i) ≡ c
if-core true x y i p q = p
if-core false x y i p q = q

pub renew-core :
    (m : StateMgr) (a now i : ℕ) → core ((renew m a now).clients i) ≡ core (m.clients i)
unfolding renew arm_lease_check
renew-core m a now i =
    let c : Client = record (m.clients a) {
      lease_expiry = now + m.cfg.lease_seconds;
      courtesy = false;
    } in
    let m' = write_client m a c in
    let kept = write-core m a i c refl in
    if-core (m.clients a).courtesy _ m' i
      (if-core (armed_by (m'.clients a).lease_heap_deadline (now + m.cfg.lease_seconds)) _ _ i kept
        (write-core m' a i _ refl ∙ kept))
      kept

pub if_true : {A : Type 0} (b : Bool) (x y : A) → b ≡ true → (if b then x else y) ≡ x
if_true b x y h = rw h

pub if_false : {A : Type 0} (b : Bool) (x y : A) → b ≡ false → (if b then x else y) ≡ y
if_false b x y h = rw h

pub write-at : (m : StateMgr) (a : ℕ) (c : Client) → (write_client m a c).clients a ≡ c
write-at m a c = rw (==_refl a)

-- The client after its new session.
confirmed_already :
    (c : Client) → c.confirmed ≡ true → core c ≡ record (core c) { confirmed = true }
confirmed_already c h = ground arith

==_false : (a b : ℕ) → (a == b) ≡ false → (b == a) ≡ false
==_false a b h = ground arith

add_session-core :
    (m : StateMgr) (a : ℕ) (args : CreateArgs) (nonce now : ℕ)
    → core ((add_session m a args nonce now).1.clients a)
      ≡ record (core (m.clients a)) { cs_sequence = next32 args.sequence }
unfolding add_session
add_session-core m a args nonce now =
    let c = m.clients a in
    let c' = join_session c args.sequence (session_id c.clientid m.next_session nonce) in
    renew-core (write_client m a c') a now a ∙ ap core (write-at m a c')

add_session-cfg :
    (m : StateMgr) (a : ℕ) (args : CreateArgs) (nonce now : ℕ)
    → (add_session m a args nonce now).1.cfg ≡ m.cfg
unfolding add_session
add_session-cfg m a args nonce now =
    let c = m.clients a in
    let c' = join_session c args.sequence (session_id c.clientid m.next_session nonce) in
    (renew-tables (write_client m a c') a now).1

bury-cfg : (m : StateMgr) (b : ℕ) → (bury m b).cfg ≡ m.cfg
unfolding bury unregister
bury-cfg m b = (armed-tables (m.clients b).courtesy _ _ (refl, refl) (refl, refl)).1

bury-core :
    (m : StateMgr) (b i : ℕ) → (i == b) ≡ false → core ((bury m b).clients i) ≡ core (m.clients i)
unfolding bury unregister
bury-core m b i h =
    let other : core ((write_client m b _).clients i) ≡ core (m.clients i) = rw h in
    if-core (m.clients b).courtesy _ _ i other other

bury_old-cfg : (m : StateMgr) (old : Option ℕ) → (bury_old m old).cfg ≡ m.cfg
bury_old-cfg m none = refl
bury_old-cfg m (some b) = bury-cfg m b

bury_old-core :
    (m : StateMgr) (a : ℕ) (old : Option ℕ)
    → core ((bury_old m (other_than a old)).clients a) ≡ core (m.clients a)
bury_old-core m a none = refl
bury_old-core m a (some b) = elim (Bool-cases (b == a)) [
  | inl q ↦ rw q
  | inr q ↦ rw q (bury-core m b a (==_false b a q))
]

confirm_in-cfg : (m : StateMgr) (a : ℕ) (s : OwnerSlot) → (confirm_in m a s).cfg ≡ m.cfg
unfolding confirm_in
confirm_in-cfg m a s = bury_old-cfg m (other_than a s.confirmed)

confirm_in-core :
    (m : StateMgr) (a : ℕ) (s : OwnerSlot)
    → core ((confirm_in m a s).clients a) ≡ record (core (m.clients a)) { confirmed = true }
unfolding confirm_in
confirm_in-core m a s =
    let m' = bury_old m (other_than a s.confirmed) in
    ap core (
      write-at (set_slot m' (m.clients a).owner_id (claims a s)) a
        (record (m'.clients a) { confirmed = true }))
    ∙ ap (λ (x : Core). record x { confirmed = true }) (bury_old-core m a s.confirmed)

confirm_client-old :
    (m : StateMgr) (a : ℕ) → (m.clients a).confirmed ≡ true → confirm_client m a ≡ m
unfolding confirm_client
confirm_client-old m a q = if_true _ _ _ q

pub confirm_client-new :
    (m : StateMgr) (a : ℕ)
    → (m.clients a).confirmed ≡ false
    → confirm_client m a ≡ confirm_in m a (slot_of m a)
unfolding confirm_client
confirm_client-new m a q = if_false _ _ _ q

confirm_client-cfg : (m : StateMgr) (a : ℕ) → (confirm_client m a).cfg ≡ m.cfg
unfolding confirm_client
confirm_client-cfg m a = elim (Bool-cases (m.clients a).confirmed) [
  | inl q ↦ rw q
  | inr q ↦ rw q (confirm_in-cfg m a (slot_of m a))
]

confirm_client-core :
    (m : StateMgr) (a : ℕ)
    → core ((confirm_client m a).clients a) ≡ record (core (m.clients a)) { confirmed = true }
confirm_client-core m a = elim (Bool-cases (m.clients a).confirmed) [
  | inl q ↦
      ap (λ (n : StateMgr). core (n.clients a)) (confirm_client-old m a q)
      ∙ confirmed_already (m.clients a) q
  | inr q ↦
      ap (λ (n : StateMgr). core (n.clients a)) (confirm_client-new m a q)
      ∙ confirm_in-core m a (slot_of m a)
]

-- Whether it was confirmed before or not, the client is confirmed.
pub grant_session-core :
    (m : StateMgr) (a : ℕ) (args : CreateArgs) (nonce now : ℕ)
    → core ((grant_session m a args nonce now).1.clients a)
      ≡ record (core (m.clients a)) { confirmed = true; cs_sequence = next32 args.sequence }
unfolding grant_session
grant_session-core m a args nonce now =
    let m1 = confirm_client m a in
    let m2 = (add_session m1 a args nonce now).1 in
    ap core ((drop_incarnation-Kept m m2 (old_incarnation m a)).clients a)
    ∙ (add_session-core m1 a args nonce now
        ∙ ap (λ (x : Core). record x { cs_sequence = next32 args.sequence })
            (confirm_client-core m a))

pub grant_session-cfg :
    (m : StateMgr) (a : ℕ) (args : CreateArgs) (nonce now : ℕ)
    → (grant_session m a args nonce now).1.cfg ≡ m.cfg
unfolding grant_session
grant_session-cfg m a args nonce now =
    let m1 = confirm_client m a in
    let m2 = (add_session m1 a args nonce now).1 in
    (drop_incarnation-Kept m m2 (old_incarnation m a)).cfg
    ∙ (add_session-cfg m1 a args nonce now ∙ confirm_client-cfg m a)

confirm_in-IsIn :
    (m : StateMgr) (a : ℕ)
    → (view (confirm_in m a (slot_of m a))).confirmed (m.clients a).owner_id ≡ some a
unfolding confirm_in
confirm_in-IsIn m a =
    let o = (m.clients a).owner_id in
    let m' = bury_old m (other_than a (slot_of m a).confirmed) in
    ap (λ (v : View). v.confirmed o) (confirm-seated m' o (claims a (slot_of m a)) a)
    ∙ rw (bytes_eq_refl o)

confirm_client-IsIn :
    (m : StateMgr) (a : ℕ)
    → IsConsistent (view m)
    → IsIn (view m) a
    → IsIn (view (confirm_client m a)) a
confirm_client-IsIn m a c h = elim (Bool-cases (m.clients a).confirmed) [
  | inl q ↦ subst (λ n. IsIn (view n) a) (sym (confirm_client-old m a q)) h
  | inr q ↦
      let after = Moves-IsConsistent c (confirm_client-Moves m a c h) in
      (after.of_confirmed (m.clients a).owner_id a (
        ap (λ n. (view n).confirmed (m.clients a).owner_id) (confirm_client-new m a q)
        ∙ confirm_in-IsIn m a)).0
]

-- The client is registered.
pub grant_session-IsIn :
    (m : StateMgr) (a : ℕ) (args : CreateArgs) (nonce now : ℕ)
    → IsConsistent (view m)
    → IsIn (view m) a
    → IsIn (view (grant_session m a args nonce now).1) a
grant_session-IsIn m a args nonce now c h =
    subst (λ v. IsIn v a) (sym (grant_session-view m a args nonce now))
      (confirm_client-IsIn m a c h)

passes :
    {a : ℕ} (b : Bool) (x y : Option ℕ)
    → (if b then x else none) ≡ some a
    → y ≡ some a
    → (if b then y else none) ≡ some a
passes true x y h k = k
passes false x y h k = h

-- A client that is registered is found by its id.
pub IsIn-find :
    (m n : StateMgr) (id a : ℕ)
    → find_client m id ≡ some a
    → n.cfg ≡ m.cfg
    → IsIn (view n) a
    → (n.clients a).clientid ≡ id
    → find_client n id ≡ some a
unfolding find_client view see
IsIn-find m n id a h g k e = rw g (passes _ _ _ h (rw e at k))
