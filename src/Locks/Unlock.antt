-- ===== src/Locks/Unlock.antt =====
-- What `unlock` and `release_owner` of src/state/lock_mgr.cpp promise, and the table after any calls.
use lightnfs.Prelude.{
  ℕ, ◌+◌, ◌≤◌, ◌≡◌, refl, sym, ap, ◌∙◌, inl, inr, Bool, true, ◌&&◌, not, List, [], ◌∷◌, arith,
  length, All, Bool-cases, Option-cases,
}
use lightnfs.Locks.Types.{
  LockOwnerId, LockRange, FileKey, same_owner, key_eq, key_eq_refl, range_end,
}
use lightnfs.Locks.Coverage.{held, IsProper, held-carve}
use lightnfs.Locks.Proper.{carve-IsProper}
use lightnfs.Locks.Table.{
  find, LockTable, empty_table, segments, lock, unlock, owned, release_owner, count_owner,
}
use lightnfs.Locks.Account.{IsCounted}
use lightnfs.Locks.Drops.{
  segments-unlock, segments-release, unlock-IsCounted, release-IsCounted, length-without_owner,
  held-without_owner, without_owner-IsProper,
}
use lightnfs.Locks.Safety.{
  IsSafe, IsRange, locked, in_range, segments_same, if_lists, and_left, lock-IsSafe,
}

module _ (t : LockTable) (k : FileKey) (o : LockOwnerId) (s : IsSafe t) where
  -- In a table with the invariant IsSafe, `unlock` on a range that does not end before it starts takes
  -- from its owner the bytes of the range on this file, and nothing else from anybody.
  pub locked-unlock :
      (r : LockRange)
      → r.offset ≤ range_end r
      → (j : FileKey) (a : LockOwnerId) (y : Bool) (p : ℕ)
      → locked (unlock t k o r) j a y p
        ≡ (locked t j a y p && not (key_eq k j && (same_owner a o && in_range r p)))
  locked-unlock r h j a y p =
      rw (segments-unlock t k s.counted o r j) (elim (Bool-cases (key_eq k j)) [
        | inl q ↦
            rw (q, held-carve a y p o r.offset (range_end r) h (segments t k))
              (ap (λ segs. held a y p segs && not (same_owner a o && in_range r p))
                (segments_same t k j q))
        | inr q ↦ rw q (ground arith)
      ])

  -- In a table with the invariant IsSafe, `release_owner` takes every lock of its owner on this file,
  -- and nothing else from anybody.
  pub locked-release :
      (j : FileKey) (a : LockOwnerId) (y : Bool) (p : ℕ)
      → locked (release_owner t k o).1 j a y p
        ≡ (locked t j a y p && not (key_eq k j && same_owner a o))
  locked-release j a y p = rw (segments-release t k s.counted o j) (elim (Bool-cases (key_eq k j)) [
    | inl q ↦
        rw (q, held-without_owner o (segments t k) a y p)
          (ap (λ segs. held a y p segs && not (same_owner a o)) (segments_same t k j q))
    | inr q ↦ rw q (ground arith)
  ])

  pub unlock-IsSafe : (r : LockRange) → r.offset ≤ range_end r → IsSafe (unlock t k o r)
  unlock-IsSafe r h = record {
    counted = unlock-IsCounted t k s.counted o r;
    proper = λ j. rw (segments-unlock t k s.counted o r j) (
        if_lists IsProper (key_eq k j) (carve-IsProper o r.offset (range_end r) _ (s.proper k))
          (s.proper j));
    exclusive = λ j a b y p ha hb.
        s.exclusive j a b y p (and_left _ _ (sym (locked-unlock r h j a true p) ∙ ha))
          (and_left _ _ (sym (locked-unlock r h j b y p) ∙ hb));
  }

  pub release-IsSafe : IsSafe (release_owner t k o).1
  release-IsSafe = record {
    counted = release-IsCounted t k s.counted o;
    proper = λ j.
        rw (segments-release t k s.counted o j)
          (if_lists IsProper (key_eq k j) (without_owner-IsProper o _ (s.proper k)) (s.proper j));
    exclusive = λ j a b y p ha hb.
        s.exclusive j a b y p (and_left _ _ (sym (locked-release j a true p) ∙ ha))
          (and_left _ _ (sym (locked-release j b y p) ∙ hb));
  }

  count-owned : count_owner t k o ≡ owned o (segments t k)
  unfolding count_owner segments owned
  count-owned = elim (Option-cases (find k t.files)) [
    | inl e ↦ rw (e, count_owner, segments)
    | inr (segs, e) ↦ rw (e, count_owner, segments)
  ]

  release_counted : (release_owner t k o).0 ≡ count_owner t k o
  unfolding count_owner release_owner
  release_counted = elim (Option-cases (find k t.files)) [
    | inl e ↦ rw (e, count_owner, release_owner)
    | inr (segs, e) ↦
        rw (e, count_owner, release_owner) (omega (arith, length-without_owner o segs))
  ]

  -- In a table with the invariant IsSafe, `release_owner` answers how many segments it dropped: those
  -- that `count_owner` counted, and the list shrinks by as many.
  pub release-count :
      ((release_owner t k o).0 ≡ count_owner t k o)
      × (length (segments (release_owner t k o).1 k) + count_owner t k o ≡ length (segments t k))
  release-count = (
    release_counted,
    rw (segments-release t k s.counted o k, key_eq_refl k)
        (omega (arith, count-owned, length-without_owner o (segments t k))),
  )

-- The calls that change the table.
pub data Call : Type 0 where
  locks : FileKey → LockOwnerId → LockRange → Bool → Call
  unlocks : FileKey → LockOwnerId → LockRange → Call
  releases : FileKey → LockOwnerId → Call

unfoldable pub step : LockTable → Call → LockTable
step t (locks k o r x) = (lock t k o r x).1
step t (unlocks k o r) = unlock t k o r
step t (releases k o) = (release_owner t k o).1

unfoldable pub run : LockTable → List Call → LockTable
run t [] = t
run t (c ∷ calls) = run (step t c) calls

abbrev pub IsCall : Call → Type 0
IsCall (locks k o r x) = IsRange r
IsCall (unlocks k o r) = r.offset ≤ range_end r
IsCall (releases k o) = Unit

step-IsSafe : (t : LockTable) (c : Call) → IsCall c → IsSafe t → IsSafe (step t c)
unfolding step
step-IsSafe t (locks k o r x) h s = lock-IsSafe t k o r x s h
step-IsSafe t (unlocks k o r) h s = unlock-IsSafe t k o s r h
step-IsSafe t (releases k o) h s = release-IsSafe t k o s

pub run-IsSafe :
    (t : LockTable) (calls : List Call) → All IsCall calls → IsSafe t → IsSafe (run t calls)
unfolding run
run-IsSafe t [] h s = s
run-IsSafe t (c ∷ calls) h s = run-IsSafe (step t c) calls h.1 (step-IsSafe t c h.0 s)

pub empty_table-IsSafe : IsSafe empty_table
unfolding segments find
empty_table-IsSafe = record {
  counted = record { distinct = tt; total = refl; file_count = refl; used = λ k e. ground arith };
  proper = λ k. tt;
  exclusive = λ k a b y p e f. ground arith;
}

-- After any calls on ranges that have a byte, a byte that one owner has locked exclusively is locked
-- by nobody else, and by that owner in no other mode.
pub run_exclusive :
    (calls : List Call)
    → All IsCall calls
    → (k : FileKey) (a b : LockOwnerId) (y : Bool) (p : ℕ)
    → locked (run empty_table calls) k a true p ≡ true
    → locked (run empty_table calls) k b y p ≡ true
    → (same_owner a b ≡ true) × (y ≡ true)
run_exclusive calls h k a b y p =
    (run-IsSafe empty_table calls h empty_table-IsSafe).exclusive k a b y p

-- After any such calls the counters are the number of segments and of files, mod 2^64, and no file
-- is kept without a segment.
pub run-IsCounted : (calls : List Call) → All IsCall calls → IsCounted (run empty_table calls)
run-IsCounted calls h = (run-IsSafe empty_table calls h empty_table-IsSafe).counted
