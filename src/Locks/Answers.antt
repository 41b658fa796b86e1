-- ===== src/Locks/Answers.antt =====
-- The list that `lock` of src/state/lock_mgr.cpp leaves, and its answers beside those of `test`.
use lightnfs.Prelude.{
  ℕ, ◌||◌, not, Bool-cases, ◌≤◌, ◌≡◌, refl, ap, ◌∙◌, inl, inr, Bool, Option, none, some, List, [],
  ◌∷◌, arith, All, Option-cases,
}
use lightnfs.Locks.Types.{
  LockOwnerId, LockRange, LockConflict, LockSeg, FileKey, key_eq_refl, range_end, conflict_of,
  same_owner, overlaps, uint64_max,
}
use lightnfs.Locks.Table.{find, LockTable, segments, first_conflict, test_segs, grant, lock, test}
use lightnfs.Locks.Canonical.{IsSorted, IsCanonical, coalesce-IsSorted, coalesce-IsCanonical}
use lightnfs.Locks.Steps.{lock_refused, lock_granted, segments-granted}
use lightnfs.Locks.Safety.{IsSafe, scanned, scanned-none}

-- After a lock granted in a table with the invariant IsSafe, the list of the file is sorted by start, and no two of its segments could be
-- one: two of one owner and one mode have a gap between them.
pub lock-IsCanonical :
    (t : LockTable) (k : FileKey) (o : LockOwnerId) (r : LockRange) (x : Bool)
    → IsSafe t
    → (lock t k o r x).0 ≡ none
    → IsSorted (segments (lock t k o r x).1 k) × IsCanonical (segments (lock t k o r x).1 k)
unfolding grant
lock-IsCanonical t k o r x s e = rw (lock_granted t k o r x (scanned-none t k o r x e)) (
    rw (segments-granted t k s.counted o r x k, key_eq_refl k)
      (coalesce-IsSorted _, coalesce-IsCanonical _))

abbrev reported : Option LockSeg → Option LockConflict
reported none = none
reported (some s) = some (conflict_of s)

-- The two scans find the same segment.
test_segs-first_conflict :
    (o : LockOwnerId) (start end : ℕ) (x : Bool) (segs : List LockSeg)
    → test_segs (some o) start end x segs ≡ reported (first_conflict o start end x segs)
unfolding test_segs first_conflict
test_segs-first_conflict o start end x [] = refl
test_segs-first_conflict o start end x (s ∷ segs) =
    let rest = test_segs-first_conflict o start end x segs in
    elim (Bool-cases (same_owner s.owner o || not (overlaps s start end))) [
      | inl skip ↦ rw skip rest
      | inr hit ↦ elim (Bool-cases (x || s.exclusive)) [
        | inl c ↦ rw (hit, c)
        | inr c ↦ rw (hit, c) rest
      ]
    ]

test_scan :
    (t : LockTable) (k : FileKey) (o : LockOwnerId) (r : LockRange) (x : Bool)
    → test t k (some o) r x ≡ reported (first_conflict o r.offset (range_end r) x (segments t k))
unfolding test segments first_conflict
test_scan t k o r x = elim (Option-cases (find k t.files)) [
  | inl e ↦ rw (e, test, segments)
  | inr (segs, e) ↦
      rw (e, test, segments) (test_segs-first_conflict o r.offset (range_end r) x segs)
]

-- `test` for an owner answers what `lock` would: the same conflict or none.
pub test-lock :
    (t : LockTable) (k : FileKey) (o : LockOwnerId) (r : LockRange) (x : Bool)
    → test t k (some o) r x ≡ (lock t k o r x).0
test-lock t k o r x = elim (Option-cases (scanned t k o r x)) [
  | inl n ↦ rw (lock_granted t k o r x n) (test_scan t k o r x ∙ ap reported n)
  | inr (c, f) ↦ rw (lock_refused t k o r x c f) (test_scan t k o r x ∙ ap reported f)
]

-- The segments end at the largest offset at most.
abbrev pub IsBounded : List LockSeg → Type 0
IsBounded = All λ s. s.end ≤ uint64_max

scan_at_max :
    (o : LockOwnerId) (x : Bool) (segs : List LockSeg)
    → IsBounded segs
    → first_conflict o uint64_max uint64_max x segs ≡ none
unfolding first_conflict
scan_at_max o x [] h = refl
scan_at_max o x (s ∷ segs) h = ground (arith, scan_at_max o x segs h.1)

-- If the segments of the file end at the largest offset at most, a lock from the largest offset to
-- the end of the file is granted, whoever holds a lock there: its segment, whose end is the largest
-- offset too, has no byte.
pub lock_at_max :
    (t : LockTable) (k : FileKey) (o : LockOwnerId) (x : Bool)
    → IsBounded (segments t k)
    → (lock t k o (record { offset = uint64_max; length = uint64_max }) x).0 ≡ none
unfolding range_end
lock_at_max t k o x h =
    ap (λ (q : Option LockConflict × LockTable). q.0)
      (lock_granted t k o (record { offset = uint64_max; length = uint64_max }) x
        (scan_at_max o x (segments t k) h))
