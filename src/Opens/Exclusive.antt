-- ===== src/Opens/Exclusive.antt =====
-- Share reservations of src/state/state_mgr.cpp: what the scan of a file's opens has seen, and an open
-- that becomes wider.
use lightnfs.Prelude.{
  ℕ, ◌≡◌, ◌⊎◌, inl, inr, refl, sym, ◌∙◌, Bool, true, false, ◌&&◌, ◌||◌, not, Option, none, some,
  List, [], ◌∷◌, ◌==◌, ==_iff, ==_refl, if◌then◌else◌, bytes_eq-eq, bytes_eq_refl, bit_or,
  bit_and_comm, bit_or-none, Bool-cases, arith,
}
use lightnfs.Maps.{bytes, number, find, has}
use lightnfs.Sessions.Types.{StateMgr}
use lightnfs.Opens.Types.{StateRec, file}
use lightnfs.Opens.Open.{
  OpenArgs, share_conflict, is_dead, is_same, arbitrate, merge, args_key, file_or_new,
}

-- The opens of the file.
abbrev pub opens_of : StateMgr → OpenArgs → List ℕ
opens_of m args = (file_or_new (find (args_key args) m.opens.files)).opens

abbrev pub excludes : StateMgr → ℕ → ℕ → Bool
excludes m o p = share_conflict (m.opens.recs o).access (m.opens.recs o).deny (m.opens.recs p)

-- Two opens that live and have different owners do not exclude one another.
abbrev pub IsExclusive : StateMgr → List ℕ → Type 0
IsExclusive m os =
    (o p : ℕ)
    → has o os ≡ true
    → has p os ≡ true
    → is_dead m o ≡ false
    → is_dead m p ≡ false
    → is_same m (m.opens.recs p).client (m.opens.recs p).owner o ≡ false
    → excludes m o p ≡ false

pub share_conflict_comm :
    (a d : ℕ) (x : StateRec) (y : StateRec)
    → x.access ≡ a
    → x.deny ≡ d
    → share_conflict a d y ≡ share_conflict y.access y.deny x
unfolding share_conflict
share_conflict_comm a d x y p q = ground (arith, bit_and_comm a y.deny, bit_and_comm d y.access)

-- What the scan has seen when it grants.
pub record IsClear (m : StateMgr) (a : ℕ) (args : OpenArgs) (os : List ℕ) (before mine : Option ℕ)
    : Type 0 where
  pub others :
      (o : ℕ)
      → has o os ≡ true
      → is_dead m o ≡ false
      → is_same m a args.owner o ≡ false
      → share_conflict args.access args.deny (m.opens.recs o) ≡ false
  pub found :
      (r : ℕ)
      → mine ≡ some r
      → (before ≡ some r)
        ⊎ ((has r os ≡ true) × (is_dead m r ≡ false) × (is_same m a args.owner r ≡ true))
  pub missed :
      mine ≡ none
      → (before ≡ none)
        × ((o : ℕ) → has o os ≡ true → is_dead m o ≡ false → is_same m a args.owner o ≡ false)

pub arbitrate-IsClear :
    (m : StateMgr) (a : ℕ) (args : OpenArgs) (os : List ℕ) (before : Option ℕ)
    → ((o : ℕ) → has o os ≡ true → ((m.clients (m.opens.recs o).client).clientid == 0) ≡ false)
    → (arbitrate m a args os before).denied ≡ false
    → (arbitrate m a args os before).courtesy ≡ 0
    → IsClear m a args os before (arbitrate m a args os before).mine
unfolding arbitrate has
arbitrate-IsClear m a args [] before n h k = record {
  others = λ o q. cc;
  found = λ r q. inl q;
  missed = λ q. (q, λ o q'. cc);
}
arbitrate-IsClear m a args (o ∷ os) before n h k =
    let conflict = share_conflict args.access args.deny (m.opens.recs o) in
    let counted = not (is_dead m o) && is_same m a args.owner o in
    elim (Bool-cases (is_dead m o || is_same m a args.owner o || not conflict)) [
      | inl q ↦
          let ih =
            arbitrate-IsClear m a args os (if counted then some o else before)
              (λ p r. n p (ground arith)) (rw q at h) (rw q at k) in
          rw q (record {
            others = λ p r d s. ground (arith, ih.others p, ==_iff o p);
            found = λ r e. ground (arith, ih.found r e, ==_refl r);
            missed = λ e. (
              ground (arith, (ih.missed e).0),
              λ p r d. ground (arith, (ih.missed e).0, (ih.missed e).1 p, ==_iff o p),
            );
          })
      | inr q ↦ absurd (ground (arith, n o, ==_refl o, rw q at h, rw q at k))
    ]

share_conflict-bit_or :
    (x y u v : ℕ) (z : StateRec)
    → share_conflict x y z ≡ false
    → share_conflict u v z ≡ false
    → share_conflict (bit_or x u) (bit_or y v) z ≡ false
unfolding share_conflict
share_conflict-bit_or x y u v z p q =
    ground (arith, bit_or-none x u z.deny, bit_or-none y v z.access)

-- Owners that are the same as a third one are the same.
is_same_both :
    (m : StateMgr) (a r p : ℕ) (owner : List ℕ)
    → is_same m a owner r ≡ true
    → is_same m (m.opens.recs p).client (m.opens.recs p).owner r ≡ false
    → is_same m a owner p ≡ false
unfolding is_same
is_same_both m a r p owner h k = ground (
  arith,
  bytes_eq-eq (m.opens.recs r).owner owner,
  bytes_eq-eq (m.opens.recs p).owner owner,
  bytes_eq_refl owner,
)

pub is_same_comm :
    (m : StateMgr) (o p : ℕ)
    → is_same m (m.opens.recs p).client (m.opens.recs p).owner o ≡ false
    → is_same m (m.opens.recs o).client (m.opens.recs o).owner p ≡ false
unfolding is_same
is_same_comm m o p h = ground (
  arith,
  bytes_eq-eq (m.opens.recs p).owner (m.opens.recs o).owner,
  bytes_eq_refl (m.opens.recs o).owner,
)

is_same_refl :
    (m : StateMgr) (o : ℕ) → is_same m (m.opens.recs o).client (m.opens.recs o).owner o ≡ true
unfolding is_same
is_same_refl m o = rw (==_refl (m.opens.recs o).client, bytes_eq_refl (m.opens.recs o).owner)

-- The open that becomes wider, and any other.
widened-excludes :
    (m : StateMgr) (a : ℕ) (args : OpenArgs) (os : List ℕ) (r p : ℕ)
    → IsExclusive m os
    → IsClear m a args os none (some r)
    → has r os ≡ true
    → is_dead m r ≡ false
    → is_same m a args.owner r ≡ true
    → has p os ≡ true
    → is_dead m p ≡ false
    → is_same m (m.opens.recs p).client (m.opens.recs p).owner r ≡ false
    → share_conflict
        (bit_or (m.opens.recs r).access args.access)
        (bit_or (m.opens.recs r).deny args.deny)
        (m.opens.recs p)
      ≡ false
widened-excludes m a args os r p c k hr lr sr hp lp ne =
    share_conflict-bit_or _ _ _ _ _ (c r p hr hp lr lp ne)
      (k.others p hp lp (is_same_both m a r p args.owner sr ne))

none_first : {r : ℕ} {B : Type 0} → (none ≡ some r) ⊎ B → B
none_first (inl h) = absurd (none_not h)
  where
    none_not : {r : ℕ} → none ≡ some r → ⊥
    none_not h = cc
none_first (inr h) = h

merge-dead : (m : StateMgr) (r o : ℕ) (args : OpenArgs) → is_dead (merge m r args) o ≡ is_dead m o
unfolding merge is_dead
merge-dead m r o args = ground (arith, ==_iff o r)

merge-same :
    (m : StateMgr) (r o p : ℕ) (args : OpenArgs)
    → is_same
        (merge m r args)
        ((merge m r args).opens.recs p).client
        ((merge m r args).opens.recs p).owner
        o
      ≡ is_same m (m.opens.recs p).client (m.opens.recs p).owner o
unfolding merge is_same
merge-same m r o p args = elim (Bool-cases (o == r)) [
  | inl q ↦ elim (Bool-cases (p == r)) [
    | inl s ↦ rw ((==_iff o r).0 q, (==_iff p r).0 s, ==_refl r)
    | inr s ↦ rw (s, (==_iff o r).0 q, ==_refl r)
  ]
  | inr q ↦ elim (Bool-cases (p == r)) [
    | inl s ↦ rw (q, (==_iff p r).0 s, ==_refl r)
    | inr s ↦ rw (q, s)
  ]
]

pub same_not :
    (m : StateMgr) (r : ℕ) → is_same m (m.opens.recs r).client (m.opens.recs r).owner r ≡ false → ⊥
same_not m r h = cc (h, is_same_refl m r)

pub merge-IsExclusive :
    (m : StateMgr) (a : ℕ) (args : OpenArgs) (os : List ℕ) (r : ℕ)
    → IsExclusive m os
    → IsClear m a args os none (some r)
    → IsExclusive (merge m r args) os
unfolding merge
merge-IsExclusive m a args os r c k o p ho hp lo lp ne =
    let (hr, lr, sr) = none_first (k.found r refl) in
    let live_o = sym (merge-dead m r o args) ∙ lo in
    let live_p = sym (merge-dead m r p args) ∙ lp in
    let differ = sym (merge-same m r o p args) ∙ ne in
    elim (Bool-cases (o == r)) [
      | inl q ↦
          let here = rw ((==_iff o r).0 q) at differ in
          elim (Bool-cases (p == r)) [
            | inl s ↦ absurd (same_not m r (rw ((==_iff p r).0 s) at here))
            | inr s ↦ rw (q, s) (widened-excludes m a args os r p c k hr lr sr hp live_p here)
          ]
      | inr q ↦ elim (Bool-cases (p == r)) [
        | inl s ↦
            let here = is_same_comm m o r (rw ((==_iff p r).0 s) at differ) in
            rw (q, s)
              (share_conflict_comm (m.opens.recs o).access (m.opens.recs o).deny (m.opens.recs o) _
                  refl refl
                ∙ widened-excludes m a args os r o c k hr lr sr ho live_o here)
        | inr s ↦ rw (q, s) (c o p ho hp live_o live_p differ)
      ]
    ]
