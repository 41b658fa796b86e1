-- ===== src/Locks/Drops.antt =====
-- `unlock` and `release_owner` of src/state/lock_mgr.cpp.
use lightnfs.Prelude.{
  ℕ, ◌+◌, ◌≡◌, refl, sym, ap, ◌∙◌, inl, inr, Bool, true, ◌&&◌, not, Option, none, some, List, [],
  ◌∷◌, arith, if◌then◌else◌, length, Bool-cases, Option-cases,
}
use lightnfs.Locks.Types.{
  LockOwnerId, LockRange, LockSeg, FileKey, same_owner, same_owner_cong, key_eq, key_eq-eq,
  key_eq_refl, range_end,
}
use lightnfs.Locks.Segs.{carve}
use lightnfs.Locks.Coverage.{held, IsProper}
use lightnfs.Locks.Table.{
  find, LockTable, listed, segments, store, unlock, without_owner, owned, release_owner,
}
use lightnfs.Locks.Account.{IsCounted}
use lightnfs.Locks.Steps.{segments-store, store-IsCounted}

module _ (t : LockTable) (k : FileKey) (c : IsCounted t) where
  missing : (j : FileKey) → find k t.files ≡ none → key_eq k j ≡ true → segments t j ≡ []
  unfolding segments
  missing j f e = ap (λ i. listed (find i t.files)) (sym (key_eq-eq k j e)) ∙ ap listed f

  -- A store of the new list of a file that is there.
  stored :
      (old segs : List LockSeg)
      → find k t.files ≡ some old
      → IsCounted (store t k segs (length old))
  stored old segs f =
      store-IsCounted t k segs (length old) old f refl c.total c.file_count c.distinct
        (λ j e. c.used j)

  -- The lists after a call that rewrites the list of `k` by `f`, if it is there.
  module _ (f : List LockSeg → List LockSeg) (empty : f [] ≡ []) where
    dropped_none :
        (j : FileKey)
        → find k t.files ≡ none
        → segments t j ≡ (if key_eq k j then f (segments t k) else segments t j)
    dropped_none j g = elim (Bool-cases (key_eq k j)) [
      | inl e ↦ rw e (missing j g e ∙ sym empty ∙ ap f (sym (missing k g (key_eq_refl k))))
      | inr e ↦ rw e
    ]

    dropped_some :
        (j : FileKey) (segs : List LockSeg)
        → find k t.files ≡ some segs
        → segments (store t k (f segs) (length segs)) j
          ≡ (if key_eq k j then f (segments t k) else segments t j)
    unfolding segments
    dropped_some j segs g =
        segments-store t k (f segs) (length segs) j c.distinct
        ∙ ap (λ (o : Option (List LockSeg)). if key_eq k j then f (listed o) else segments t j)
            (sym g)

  pub segments-unlock :
      (o : LockOwnerId) (r : LockRange) (j : FileKey)
      → segments (unlock t k o r) j
        ≡ (if key_eq k j then carve o r.offset (range_end r) (segments t k) else segments t j)
  unfolding unlock carve
  segments-unlock o r j = elim (Option-cases (find k t.files)) [
    | inl f ↦ rw (f, unlock) (dropped_none (carve o r.offset (range_end r)) refl j f)
    | inr (segs, f) ↦ rw (f, unlock) (dropped_some (carve o r.offset (range_end r)) refl j segs f)
  ]

  pub segments-release :
      (o : LockOwnerId) (j : FileKey)
      → segments (release_owner t k o).1 j
        ≡ (if key_eq k j then without_owner o (segments t k) else segments t j)
  unfolding release_owner without_owner
  segments-release o j = elim (Option-cases (find k t.files)) [
    | inl f ↦ rw (f, release_owner) (dropped_none (without_owner o) refl j f)
    | inr (segs, f) ↦ rw (f, release_owner) (dropped_some (without_owner o) refl j segs f)
  ]

  pub unlock-IsCounted : (o : LockOwnerId) (r : LockRange) → IsCounted (unlock t k o r)
  unfolding unlock
  unlock-IsCounted o r = elim (Option-cases (find k t.files)) [
    | inl f ↦ rw (f, unlock) c
    | inr (segs, f) ↦ rw (f, unlock) (stored segs (carve o r.offset (range_end r) segs) f)
  ]

  pub release-IsCounted : (o : LockOwnerId) → IsCounted (release_owner t k o).1
  unfolding release_owner
  release-IsCounted o = elim (Option-cases (find k t.files)) [
    | inl f ↦ rw (f, release_owner) c
    | inr (segs, f) ↦ rw (f, release_owner) (stored segs (without_owner o segs) f)
  ]

module _ (o : LockOwnerId) where
  pub length-without_owner :
      (segs : List LockSeg) → length (without_owner o segs) + owned o segs ≡ length segs
  unfolding without_owner owned
  length-without_owner [] = omega arith
  length-without_owner (s ∷ segs) = elim (Bool-cases (same_owner s.owner o)) [
    | inl e ↦ rw e (omega (arith, length-without_owner segs))
    | inr e ↦ rw e (omega (arith, length-without_owner segs))
  ]

  pub held-without_owner :
      (segs : List LockSeg) (a : LockOwnerId) (y : Bool) (p : ℕ)
      → held a y p (without_owner o segs) ≡ (held a y p segs && not (same_owner a o))
  unfolding without_owner
  held-without_owner [] a y p = refl
  held-without_owner (s ∷ segs) a y p = elim (Bool-cases (same_owner s.owner o)) [
    | inl e ↦ rw e (ground (arith, held-without_owner segs a y p, same_owner_cong s.owner a o))
    | inr e ↦ rw e (ground (arith, held-without_owner segs a y p, same_owner_cong s.owner a o))
  ]

  pub without_owner-IsProper :
      (segs : List LockSeg) → IsProper segs → IsProper (without_owner o segs)
  unfolding without_owner
  without_owner-IsProper [] h = tt
  without_owner-IsProper (s ∷ segs) h = elim (Bool-cases (same_owner s.owner o)) [
    | inl e ↦ rw e (without_owner-IsProper segs h.1)
    | inr e ↦ rw e (h.0, without_owner-IsProper segs h.1)
  ]
