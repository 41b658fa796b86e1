-- ===== src/Locks/Canonical.antt =====
-- What `coalesce` of src/state/lock_mgr.cpp leaves: maximal segments, in the order of their starts.
use mathlib.Core.List.{reverse}
use lightnfs.Prelude.{
  ◌≤◌, ◌≡◌, true, false, List, [], ◌∷◌, arith, leb, All, Pairs, All-map, Pairs-reverse, Bool-cases,
  inl, inr,
}
use lightnfs.Locks.Types.{LockSeg, same_owner_comm, same_owner_cong}
use lightnfs.Locks.Segs.{
  insert_by_start, sort_by_start, fuses, fused, fuse, absorb, absorb_all, coalesce,
}
use lightnfs.Locks.Proper.{All-insert, All-sort}

-- Two segments that `coalesce` would not fuse: other owners, other modes, or a gap between them.
abbrev pub IsApart : LockSeg → LockSeg → Type 0
IsApart a b = fuses a b ≡ false

abbrev pub IsCanonical : List LockSeg → Type 0
IsCanonical = Pairs IsApart

abbrev pub IsSorted : List LockSeg → Type 0
IsSorted = Pairs λ a b. a.start ≤ b.start

IsApart-symm : (a b : LockSeg) → IsApart a b → IsApart b a
unfolding fuses
IsApart-symm a b h = ground (arith, same_owner_comm a.owner b.owner)

IsApart-fused :
    (t o s : LockSeg)
    → IsApart o t
    → fuses o s ≡ true
    → t.start ≤ s.start
    → o.start ≤ s.start
    → IsApart (fused o s) t
unfolding fuses
IsApart-fused t o s h e p q = ground (arith, same_owner_cong o.owner s.owner t.owner)

-- All starts of the output are at most that of the next input.
abbrev Before : LockSeg → List LockSeg → Type 0
Before s = All λ t. t.start ≤ s.start

fuse-IsApart :
    (t s : LockSeg) (out : List LockSeg)
    → t.start ≤ s.start
    → Before s out
    → All (IsApart t) out
    → All (IsApart t) (fuse s out).1
unfolding fuse
fuse-IsApart t s [] p b h = tt
fuse-IsApart t s (o ∷ out) p b h = elim (Bool-cases (fuses o s)) [
  | inl e ↦
      rw e (IsApart-symm (fused o s) t (IsApart-fused t o s (IsApart-symm t o h.0) e p b.0), h.1)
  | inr e ↦ rw e (h.0, fuse-IsApart t s out p b.1 h.1)
]

fused-IsApart :
    (o s : LockSeg) (out : List LockSeg)
    → fuses o s ≡ true
    → o.start ≤ s.start
    → Before s out
    → All (IsApart o) out
    → All (IsApart (fused o s)) out
fused-IsApart o s [] e p b h = tt
fused-IsApart o s (t ∷ out) e p b h =
    (IsApart-fused t o s h.0 e b.0 p, fused-IsApart o s out e p b.1 h.1)

fuse-IsCanonical :
    (s : LockSeg) (out : List LockSeg) → Before s out → IsCanonical out → IsCanonical (fuse s out).1
unfolding fuse
fuse-IsCanonical s [] b h = tt
fuse-IsCanonical s (o ∷ out) b h = elim (Bool-cases (fuses o s)) [
  | inl e ↦ rw e (fused-IsApart o s out e b.0 b.1 h.0, h.1)
  | inr e ↦ rw e (fuse-IsApart o s out b.0 b.1 h.0, fuse-IsCanonical s out b.1 h.1)
]

-- With the flag down nothing fused, so `s` is apart from all of the output.
fuse-none :
    (s : LockSeg) (out : List LockSeg) → (fuse s out).0 ≡ false → All (IsApart s) (fuse s out).1
unfolding fuse
fuse-none s [] h = tt
fuse-none s (o ∷ out) h = elim (Bool-cases (fuses o s)) [
  | inl e ↦ absurd (ground arith)
  | inr e ↦ rw e (IsApart-symm o s e, fuse-none s out (ground arith))
]

absorb-IsCanonical :
    (out : List LockSeg) (s : LockSeg) → Before s out → IsCanonical out → IsCanonical (absorb out s)
unfolding absorb
absorb-IsCanonical out s b h = elim (Bool-cases (fuse s out).0) [
  | inl e ↦ rw e (fuse-IsCanonical s out b h)
  | inr e ↦ rw e (fuse-none s out e, fuse-IsCanonical s out b h)
]

Before-fuse : (s : LockSeg) (out : List LockSeg) → Before s out → Before s (fuse s out).1
unfolding fuse
Before-fuse s [] b = tt
Before-fuse s (o ∷ out) b = elim (Bool-cases (fuses o s)) [
  | inl e ↦ rw e (omega arith, b.1)
  | inr e ↦ rw e (b.0, Before-fuse s out b.1)
]

Before-absorb : (s : LockSeg) (out : List LockSeg) → Before s out → Before s (absorb out s)
unfolding absorb
Before-absorb s out b = elim (Bool-cases (fuse s out).0) [
  | inl e ↦ rw e (Before-fuse s out b)
  | inr e ↦ rw e (omega arith, Before-fuse s out b)
]

Before-mono :
    (s t : LockSeg) → s.start ≤ t.start → (out : List LockSeg) → Before s out → Before t out
Before-mono s t h out b = All-map _ _ (λ o k. omega arith) out b

absorb_all-IsCanonical :
    (out segs : List LockSeg)
    → All (λ s. Before s out) segs
    → IsSorted segs
    → IsCanonical out
    → IsCanonical (absorb_all out segs)
unfolding absorb_all
absorb_all-IsCanonical out [] b k h = h
absorb_all-IsCanonical out (s ∷ segs) b k h =
    absorb_all-IsCanonical (absorb out s) segs
      (All-map _ _ (λ t q. Before-mono s t q (absorb out s) (Before-absorb s out b.0)) segs k.0) k.1
      (absorb-IsCanonical out s b.0 h)

insert-IsSorted : (s : LockSeg) (xs : List LockSeg) → IsSorted xs → IsSorted (insert_by_start s xs)
unfolding insert_by_start
insert-IsSorted s [] h = (tt, tt)
insert-IsSorted s (t ∷ xs) h = elim (Bool-cases (leb s.start t.start)) [
  | inl e ↦
      let le : s.start ≤ t.start = ground arith in
      rw e ((le, All-map _ _ (λ u q. omega arith) xs h.0), h)
  | inr e ↦ rw e (All-insert _ s xs (ground arith) h.0, insert-IsSorted s xs h.1)
]

pub sort-IsSorted : (xs : List LockSeg) → IsSorted (sort_by_start xs)
unfolding sort_by_start
sort-IsSorted [] = tt
sort-IsSorted (s ∷ xs) = insert-IsSorted s (sort_by_start xs) (sort-IsSorted xs)

-- A symmetric relation between all pairs survives sorting.
module _ (R : LockSeg → LockSeg → Type 0) (symm : (a b : LockSeg) → R a b → R b a) where
  insert-Pairs :
      (s : LockSeg) (xs : List LockSeg) → All (R s) xs → Pairs R xs → Pairs R (insert_by_start s xs)
  unfolding insert_by_start
  insert-Pairs s [] a h = (tt, tt)
  insert-Pairs s (t ∷ xs) a h = elim (Bool-cases (leb s.start t.start)) [
    | inl e ↦ rw e (a, h)
    | inr e ↦ rw e (All-insert (R t) s xs (symm s t a.0) h.0, insert-Pairs s xs a.1 h.1)
  ]

  pub sort-Pairs : (xs : List LockSeg) → Pairs R xs → Pairs R (sort_by_start xs)
  unfolding sort_by_start
  sort-Pairs [] h = tt
  sort-Pairs (s ∷ xs) h =
      insert-Pairs s (sort_by_start xs) (All-sort (R s) xs h.0) (sort-Pairs xs h.1)

All-empty : (segs : List LockSeg) → All (λ s. Before s []) segs
All-empty [] = tt
All-empty (s ∷ segs) = (tt, All-empty segs)

pub coalesce-IsCanonical : (segs : List LockSeg) → IsCanonical (coalesce segs)
unfolding coalesce
coalesce-IsCanonical segs = sort-Pairs IsApart IsApart-symm _ (
    Pairs-reverse IsApart IsApart-symm _ (
      absorb_all-IsCanonical [] (sort_by_start segs) (All-empty (sort_by_start segs))
        (sort-IsSorted segs) tt))

pub coalesce-IsSorted : (segs : List LockSeg) → IsSorted (coalesce segs)
unfolding coalesce
coalesce-IsSorted segs = sort-IsSorted (reverse (absorb_all [] (sort_by_start segs)))
