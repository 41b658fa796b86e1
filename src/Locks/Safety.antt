-- ===== src/Locks/Safety.antt =====
-- The promises of `GatewayLockMgr` (src/state/lock_mgr.cpp), byte by byte, and the invariant behind
-- them.
use mathlib.Core.Bool.{false≢true}
use lightnfs.Prelude.{
  ℕ, ◌<◌, ◌≡◌, ◌↔◌, sym, ap, ◌∙◌, inl, inr, Bool, true, false, ◌&&◌, ◌||◌, Option, none, some, List,
  arith, bool_eq, if◌then◌else◌, Bool-cases, Option-cases, max,
}
use lightnfs.Locks.Types.{
  LockOwnerId, LockRange, LockConflict, LockSeg, FileKey, same_owner, key_eq, key_eq-eq, range_end,
  conflict_of,
}
use lightnfs.Locks.Coverage.{held, within, IsProper}
use lightnfs.Locks.Grant.{
  IsExclusive, first_conflict-some, first_conflict-none, held-grant, grant-IsProper,
  grant-IsExclusive,
}
use lightnfs.Locks.Table.{LockTable, segments, first_conflict, lock}
use lightnfs.Locks.Account.{IsCounted}
use lightnfs.Locks.Steps.{lock_refused, lock_granted, segments-granted, granted-IsCounted}

-- The counters are right, and on each file the segments are not empty and an exclusive lock excludes.
pub record IsSafe (t : LockTable) : Type 0 where
  pub counted : IsCounted t
  pub proper : (k : FileKey) → IsProper (segments t k)
  pub exclusive : (k : FileKey) → IsExclusive (segments t k)

-- The range has a byte.
abbrev pub IsRange : LockRange → Type 0
IsRange r = r.offset < range_end r

-- The owner `a` has a lock of the mode `y` on the byte `p` of the file.
abbrev pub locked : LockTable → FileKey → LockOwnerId → Bool → ℕ → Bool
locked t k a y p = held a y p (segments t k)

abbrev pub in_range : LockRange → ℕ → Bool
in_range r p = within p r.offset (range_end r)

pub segments_same :
    (t : LockTable) (k j : FileKey) → key_eq k j ≡ true → segments t k ≡ segments t j
segments_same t k j q = ap (segments t) (key_eq-eq k j q)

pub if_lists :
    (P : List LockSeg → Type 0) (b : Bool) {xs ys : List LockSeg}
    → P xs
    → P ys
    → P (if b then xs else ys)
if_lists P true p q = p
if_lists P false p q = q

pub and_left : (a b : Bool) → (a && b) ≡ true → a ≡ true
and_left a b h = ground arith

module _ (t : LockTable) (k : FileKey) (o : LockOwnerId) (r : LockRange) (x : Bool) where
  -- No other owner has a lock on a byte of the range that excludes the new one.
  abbrev pub IsFree : Type 0
  IsFree =
      (a : LockOwnerId) (y : Bool) (p : ℕ)
      → locked t k a y p ≡ true
      → in_range r p ≡ true
      → (x || y) ≡ true
      → same_owner a o ≡ true

  abbrev pub scanned : Option LockSeg
  scanned = first_conflict o r.offset (range_end r) x (segments t k)

  pub scanned-none : (lock t k o r x).0 ≡ none → scanned ≡ none
  scanned-none e = elim (Option-cases scanned) [
    | inl n ↦ n
    | inr (c, f) ↦ absurd (
        refused_some
          (ap (λ (q : Option LockConflict × LockTable). q.0) (lock_refused t k o r x c f)) e)
  ]
    where
      refused_some : {q : Option LockConflict} {c : LockConflict} → q ≡ some c → q ≡ none → ⊥
      refused_some f n = cc

  -- In a table with the invariant IsSafe, a lock on a range that has a byte is granted exactly when no
  -- other owner holds a lock on a byte of the range such that one of the two locks is exclusive.
  pub lock-none_iff : IsSafe t → IsRange r → ((lock t k o r x).0 ≡ none) ↔ IsFree
  lock-none_iff s h = (
    λ e. first_conflict-none o r.offset (range_end r) x (segments t k) (scanned-none e),
    λ free. elim (Option-cases scanned) [
      | inl n ↦ ap (λ (q : Option LockConflict × LockTable). q.0) (lock_granted t k o r x n)
      | inr (c, f) ↦
          let hit =
            first_conflict-some o r.offset (range_end r) x (segments t k) c h (s.proper k) f in
          absurd (
            false≢true
              (sym hit.0 ∙ free c.owner c.exclusive (max r.offset c.start) hit.3 hit.2 hit.1))
    ],
  )

  -- In a table with the invariant IsSafe, a granted lock on a range that has a byte stands on every
  -- byte of the range, in place of what its owner had there; all other locks, on this file and on
  -- others, are as before.
  pub locked-lock :
      IsSafe t
      → IsRange r
      → (lock t k o r x).0 ≡ none
      → (j : FileKey) (a : LockOwnerId) (y : Bool) (p : ℕ)
      → locked (lock t k o r x).1 j a y p
        ≡ (if key_eq k j && (same_owner a o && in_range r p) then bool_eq x y else locked t j a y p)
  locked-lock s h e j a y p = rw (lock_granted t k o r x (scanned-none e)) (
      rw (segments-granted t k s.counted o r x j) (elim (Bool-cases (key_eq k j)) [
        | inl q ↦
            rw (q, held-grant o r.offset (range_end r) x h (segments t k) (s.proper k) a y p)
              (ap (λ segs. if same_owner a o && in_range r p then bool_eq x y else held a y p segs)
                (segments_same t k j q))
        | inr q ↦ rw q
      ]))

  -- In a table with the invariant IsSafe, a call on a range that has a byte that is refused changes
  -- nothing, and reports the lock of another owner on a byte of the range, where one of the two locks
  -- is exclusive.
  pub lock-some :
      IsSafe t
      → IsRange r
      → (c : LockConflict) → (lock t k o r x).0 ≡ some c
      → (s : LockSeg) × (c ≡ conflict_of s)
        × ((lock t k o r x).1 ≡ t)
        × (same_owner s.owner o ≡ false)
        × ((x || s.exclusive) ≡ true)
        × (in_range r (max r.offset s.start) ≡ true)
        × (locked t k s.owner s.exclusive (max r.offset s.start) ≡ true)
  lock-some s h c e = elim (Option-cases scanned) [
    | inl n ↦
        let q = ap (λ (q : Option LockConflict × LockTable). q.0) (lock_granted t k o r x n) in
        absurd (granted_some q e)
    | inr (d, f) ↦
        let refused = lock_refused t k o r x d f in
        let reported : some (conflict_of d) ≡ some c =
          sym (ap (λ (q : Option LockConflict × LockTable). q.0) refused) ∙ e in
        let hit =
          first_conflict-some o r.offset (range_end r) x (segments t k) d h (s.proper k) f in
        (
          d,
          cc,
          ap (λ (q : Option LockConflict × LockTable). q.1) refused,
          hit.0,
          hit.1,
          hit.2,
          hit.3,
        )
  ]
    where
      granted_some : {q : Option LockConflict} {c : LockConflict} → q ≡ none → q ≡ some c → ⊥
      granted_some f n = cc

  pub lock-IsSafe : IsSafe t → IsRange r → IsSafe (lock t k o r x).1
  lock-IsSafe s h = elim (Option-cases scanned) [
    | inl n ↦ rw (lock_granted t k o r x n) (record {
      counted = granted-IsCounted t k s.counted o r x;
      proper = λ j. rw (segments-granted t k s.counted o r x j) (
          if_lists IsProper (key_eq k j)
            (grant-IsProper o r.offset (range_end r) x h _ (s.proper k)) (s.proper j));
      exclusive = λ j. rw (segments-granted t k s.counted o r x j) (
          if_lists IsExclusive (key_eq k j)
            (grant-IsExclusive o r.offset (range_end r) x h _ (s.proper k) (s.exclusive k) n)
            (s.exclusive j));
    })
    | inr (d, f) ↦ rw (lock_refused t k o r x d f) s
  ]
