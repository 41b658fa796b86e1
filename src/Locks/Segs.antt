-- ===== src/Locks/Segs.antt =====
-- The segment lists of src/state/lock_mgr.cpp: `carve` and `coalesce`.
use mathlib.Core.List.{reverse}
use lightnfs.Prelude.{
  ℕ, Bool, true, false, ◌&&◌, ◌||◌, not, List, [], ◌∷◌, ◌++◌, min, max, ltb, leb, bool_eq,
  if◌then◌else◌,
}
use lightnfs.Locks.Types.{LockOwnerId, LockSeg, same_owner, overlaps}

-- What is left of one segment, in the order in which it is pushed.
unfoldable pub carve_seg : LockOwnerId → ℕ → ℕ → LockSeg → List LockSeg
carve_seg owner start end s =
    if not (same_owner s.owner owner) || not (overlaps s start end)
    then s ∷ []
    else (if ltb s.start start then record s { end = start } ∷ [] else [])
      ++ (if ltb end s.end then record s { start = end } ∷ [] else [])

unfoldable pub carve : LockOwnerId → ℕ → ℕ → List LockSeg → List LockSeg
unfolding carve_seg
carve owner start end [] = []
carve owner start end (s ∷ segs) = carve_seg owner start end s ++ carve owner start end segs

-- `std::sort` by `start`; segments with one start keep their order here.
unfoldable pub insert_by_start : LockSeg → List LockSeg → List LockSeg
insert_by_start s [] = s ∷ []
insert_by_start s (t ∷ ts) = if leb s.start t.start then s ∷ t ∷ ts else t ∷ insert_by_start s ts

-- The code's sort leaves the order of equal starts open; here they keep theirs.
unfoldable pub sort_by_start : List LockSeg → List LockSeg
unfolding insert_by_start
sort_by_start [] = []
sort_by_start (s ∷ segs) = insert_by_start s (sort_by_start segs)

-- The test under which the segment `t` of the output takes in `s`.
unfoldable pub fuses : LockSeg → LockSeg → Bool
fuses t s =
    same_owner t.owner s.owner
    && bool_eq t.exclusive s.exclusive
    && leb s.start t.end
    && leb t.start s.end

abbrev pub fused : LockSeg → LockSeg → LockSeg
fused t s = record t { start = min t.start s.start; end = max t.end s.end }

-- The inner loop, over the output from its back to its front. The flag is `merged`.
unfoldable pub fuse : LockSeg → List LockSeg → Bool × List LockSeg
fuse s [] = (false, [])
fuse s (t ∷ out) =
    let rest = fuse s out in if fuses t s then (true, fused t s ∷ out) else (rest.0, t ∷ rest.1)

-- One round of the outer loop. The output is held with its back first.
unfoldable pub absorb : List LockSeg → LockSeg → List LockSeg
unfolding fuse
absorb out s = let r = fuse s out in if r.0 then r.1 else s ∷ r.1

unfoldable pub absorb_all : List LockSeg → List LockSeg → List LockSeg
unfolding absorb
absorb_all out [] = out
absorb_all out (s ∷ segs) = absorb_all (absorb out s) segs

unfoldable pub coalesce : List LockSeg → List LockSeg
unfolding sort_by_start absorb_all
coalesce segs = sort_by_start (reverse (absorb_all [] (sort_by_start segs)))
