-- ===== src/Locks/Proper.antt =====
-- `carve` and `coalesce` of src/state/lock_mgr.cpp: no segment becomes empty, and fusing and sorting
-- change no lock.
use mathlib.Core.List.{reverse}
use lightnfs.Prelude.{
  ℕ, ◌<◌, ◌≡◌, refl, Bool, true, false, ◌||◌, not, List, [], ◌∷◌, arith, ltb, leb, All, All-append,
  All-reverse, Bool-cases, inl, inr, if◌then◌else◌,
}
use lightnfs.Locks.Types.{LockOwnerId, LockSeg, same_owner, overlaps}
use lightnfs.Locks.Segs.{
  carve_seg, carve, insert_by_start, sort_by_start, fuses, fuse, absorb, absorb_all, coalesce,
}
use lightnfs.Locks.Coverage.{IsProper, held, held-sort, held-reverse, held-absorb, fuses_parts}

IsProper-if :
    (b : Bool) (s : LockSeg) → (b ≡ true → s.start < s.end) → IsProper (if b then s ∷ [] else [])
IsProper-if true s h = (h refl, tt)
IsProper-if false s h = tt

carve_seg-IsProper :
    (owner : LockOwnerId) (start end : ℕ) (s : LockSeg)
    → s.start < s.end
    → IsProper (carve_seg owner start end s)
unfolding carve_seg
carve_seg-IsProper owner start end s h =
    elim (Bool-cases (not (same_owner s.owner owner) || not (overlaps s start end))) [
      | inl e ↦ rw e (h, tt)
      | inr e ↦ rw e (
          All-append _ (if ltb s.start start then record s { end = start } ∷ [] else []) _
            (IsProper-if (ltb s.start start) (record s { end = start }) (λ q. ground arith))
            (IsProper-if (ltb end s.end) (record s { start = end }) (λ q. ground arith)))
    ]

pub carve-IsProper :
    (owner : LockOwnerId) (start end : ℕ) (segs : List LockSeg)
    → IsProper segs
    → IsProper (carve owner start end segs)
unfolding carve
carve-IsProper owner start end [] h = tt
carve-IsProper owner start end (s ∷ segs) h =
    All-append _ (carve_seg owner start end s) _ (carve_seg-IsProper owner start end s h.0)
      (carve-IsProper owner start end segs h.1)

-- For any property of single segments.
module _ (P : LockSeg → Type 0) where
  pub All-insert : (s : LockSeg) (xs : List LockSeg) → P s → All P xs → All P (insert_by_start s xs)
  unfolding insert_by_start
  All-insert s [] k h = (k, tt)
  All-insert s (t ∷ xs) k h = elim (Bool-cases (leb s.start t.start)) [
    | inl e ↦ rw e (k, h)
    | inr e ↦ rw e (h.0, All-insert s xs k h.1)
  ]

  pub All-sort : (xs : List LockSeg) → All P xs → All P (sort_by_start xs)
  unfolding sort_by_start
  All-sort [] h = tt
  All-sort (s ∷ xs) h = All-insert s (sort_by_start xs) h.0 (All-sort xs h.1)

fuse-IsProper :
    (s : LockSeg) (out : List LockSeg) → s.start < s.end → IsProper out → IsProper (fuse s out).1
unfolding fuse
fuse-IsProper s [] k h = tt
fuse-IsProper s (t ∷ out) k h = elim (Bool-cases (fuses t s)) [
  | inl e ↦ rw e (let f = fuses_parts t s e in (grind (arith, h.0), h.1))
  | inr e ↦ rw e (h.0, fuse-IsProper s out k h.1)
]

absorb-IsProper :
    (out : List LockSeg) (s : LockSeg) → s.start < s.end → IsProper out → IsProper (absorb out s)
unfolding absorb
absorb-IsProper out s k h = elim (Bool-cases (fuse s out).0) [
  | inl e ↦ rw e (fuse-IsProper s out k h)
  | inr e ↦ rw e (k, fuse-IsProper s out k h)
]

absorb_all-IsProper :
    (out segs : List LockSeg) → IsProper out → IsProper segs → IsProper (absorb_all out segs)
unfolding absorb_all
absorb_all-IsProper out [] h k = h
absorb_all-IsProper out (s ∷ segs) h k =
    absorb_all-IsProper (absorb out s) segs (absorb-IsProper out s k.0 h) k.1

pub coalesce-IsProper : (segs : List LockSeg) → IsProper segs → IsProper (coalesce segs)
unfolding coalesce
coalesce-IsProper segs h = All-sort _ _ (
    All-reverse _ (absorb_all [] (sort_by_start segs))
      (absorb_all-IsProper [] (sort_by_start segs) tt (All-sort _ segs h)))

module _ (o : LockOwnerId) (x : Bool) (p : ℕ) where
  held-absorb_all :
      (out segs : List LockSeg)
      → IsProper out
      → IsProper segs
      → held o x p (absorb_all out segs) ≡ (held o x p segs || held o x p out)
  unfolding absorb_all
  held-absorb_all out [] h k = refl
  held-absorb_all out (s ∷ segs) h k =
      rw
        (
          held-absorb_all (absorb out s) segs (absorb-IsProper out s k.0 h) k.1,
          held-absorb o x p out s k.0 h,
        )
        (ground arith)

  -- Fusing and sorting change no lock.
  pub held-coalesce :
      (segs : List LockSeg) → IsProper segs → held o x p (coalesce segs) ≡ held o x p segs
  unfolding coalesce
  held-coalesce segs h =
      rw
        (
          held-sort o x p (reverse (absorb_all [] (sort_by_start segs))),
          held-reverse o x p (absorb_all [] (sort_by_start segs)),
          held-absorb_all [] (sort_by_start segs) tt (All-sort _ segs h),
          held-sort o x p segs,
        )
        (ground arith)
