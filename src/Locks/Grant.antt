-- ===== src/Locks/Grant.antt =====
-- When `lock` of src/state/lock_mgr.cpp grants, and the list of segments that it then writes.
use mathlib.Core.Path.{subst}
use lightnfs.Prelude.{
  ℕ, ◌<◌, ◌≡◌, Bool, true, false, ◌&&◌, ◌||◌, not, none, some, List, [], ◌∷◌, ◌++◌, arith, max,
  bool_eq, if◌then◌else◌, All-append, Bool-cases, inl, inr,
}
use lightnfs.Locks.Types.{
  LockOwnerId, LockSeg, same_owner, same_owner_refl, same_owner_comm, same_owner_cong, overlaps,
}
use lightnfs.Locks.Segs.{carve}
use lightnfs.Locks.Coverage.{held, covers, within, IsProper, held-carve, held-append}
use lightnfs.Locks.Proper.{carve-IsProper, coalesce-IsProper, held-coalesce}
use lightnfs.Locks.Table.{first_conflict, grant}

-- A byte that is locked exclusively is locked by one owner and in one mode.
abbrev pub IsExclusive : List LockSeg → Type 0
IsExclusive segs =
    (a b : LockOwnerId) (y : Bool) (p : ℕ)
    → held a true p segs ≡ true
    → held b y p segs ≡ true
    → (same_owner a b ≡ true) × (y ≡ true)

module _ (o : LockOwnerId) (start end : ℕ) (x : Bool) where
  -- `s` is of the list, of another owner, overlaps the range, and one of the two locks is exclusive.
  abbrev pub Excludes : List LockSeg → LockSeg → Type 0
  Excludes segs s =
      (same_owner s.owner o ≡ false)
      × ((x || s.exclusive) ≡ true)
      × (within (max start s.start) start end ≡ true)
      × (held s.owner s.exclusive (max start s.start) segs ≡ true)

  Excludes-head :
      (segs : List LockSeg) (t : LockSeg)
      → start < end
      → t.start < t.end
      → (same_owner t.owner o || not (overlaps t start end)) ≡ false
      → (x || t.exclusive) ≡ true
      → Excludes (t ∷ segs) t
  Excludes-head segs t h p hit c =
      (ground arith, c, ground arith, ground (arith, same_owner_refl t.owner))

  Excludes-tail : (segs : List LockSeg) (s t : LockSeg) → Excludes segs s → Excludes (t ∷ segs) s
  Excludes-tail segs s t e = (e.0, e.1, e.2, ground (arith, e.3))

  pub first_conflict-some :
      (segs : List LockSeg) (s : LockSeg)
      → start < end
      → IsProper segs
      → first_conflict o start end x segs ≡ some s
      → Excludes segs s
  unfolding first_conflict
  first_conflict-some [] s h p e = cc
  first_conflict-some (t ∷ segs) s h p e =
      elim (Bool-cases (same_owner t.owner o || not (overlaps t start end))) [
        | inl skip ↦ Excludes-tail segs s t (first_conflict-some segs s h p.1 (rw skip at e))
        | inr hit ↦ elim (Bool-cases (x || t.exclusive)) [
          | inl c ↦
              let found : some t ≡ some s = rw (hit, c) at e in
              let same : t ≡ s = cc in
              subst (Excludes (t ∷ segs)) same (Excludes-head segs t h p.0 hit c)
          | inr c ↦ Excludes-tail segs s t (first_conflict-some segs s h p.1 (rw (hit, c) at e))
        ]
      ]

  -- Without a report every lock on a byte of the range that excludes the new one is the owner's own.
  pub first_conflict-none :
      (segs : List LockSeg)
      → first_conflict o start end x segs ≡ none
      → (a : LockOwnerId) (y : Bool) (p : ℕ) → held a y p segs ≡ true
      → within p start end ≡ true
      → (x || y) ≡ true
      → same_owner a o ≡ true
  unfolding first_conflict
  first_conflict-none [] e a y p h w c = cc
  first_conflict-none (t ∷ segs) e a y p h w c =
      elim (Bool-cases (same_owner t.owner o || not (overlaps t start end))) [
        | inl skip ↦ elim (Bool-cases (covers a y p t)) [
          | inl here ↦ ground (arith, same_owner_cong t.owner a o)
          | inr other ↦ first_conflict-none segs (rw skip at e) a y p (ground arith) w c
        ]
        | inr hit ↦ elim (Bool-cases (x || t.exclusive)) [
          | inl d ↦ let absurd_eq : some t ≡ none = rw (hit, d) at e in cc
          | inr d ↦ first_conflict-none segs (rw (hit, d) at e) a y p (ground arith) w c
        ]
      ]

abbrev granted : LockOwnerId → ℕ → ℕ → Bool → LockSeg
granted o start end x = record { owner = o; start = start; end = end; exclusive = x }

grant_input-IsProper :
    (o : LockOwnerId) (start end : ℕ) (x : Bool) (segs : List LockSeg)
    → start < end
    → IsProper segs
    → IsProper (carve o start end segs ++ granted o start end x ∷ [])
grant_input-IsProper o start end x segs ordered h =
    All-append _ (carve o start end segs) _ (carve-IsProper o start end segs h) (ordered, tt)

module _ (o : LockOwnerId) (start end : ℕ) (x : Bool) (ordered : start < end) where
  -- The new lock stands on its range, and all other locks of bytes are as before.
  pub held-grant :
      (segs : List LockSeg)
      → IsProper segs
      → (a : LockOwnerId) (y : Bool) (p : ℕ)
      → held a y p (grant o start end x segs)
        ≡ (if same_owner a o && within p start end then bool_eq x y else held a y p segs)
  unfolding grant
  held-grant segs h a y p =
      rw
        (
          held-coalesce a y p _ (grant_input-IsProper o start end x segs ordered h),
          held-append a y p (carve o start end segs),
          held-carve a y p o start end (omega arith) segs,
        )
        (ground (arith, same_owner_comm a o))

  pub grant-IsProper : (segs : List LockSeg) → IsProper segs → IsProper (grant o start end x segs)
  unfolding grant
  grant-IsProper segs h = coalesce-IsProper _ (grant_input-IsProper o start end x segs ordered h)

  pub grant-IsExclusive :
      (segs : List LockSeg)
      → IsProper segs
      → IsExclusive segs
      → first_conflict o start end x segs ≡ none
      → IsExclusive (grant o start end x segs)
  grant-IsExclusive segs h k e a b y p ha hb =
      let ga = held-grant segs h a true p in
      let gb = held-grant segs h b y p in
      ground (
        arith,
        ga,
        gb,
        k a b y p,
        first_conflict-none o start end x segs e b y p,
        first_conflict-none o start end x segs e a true p,
        same_owner_cong a o b,
        same_owner_comm b o,
      )
