-- ===== src/Locks/Tests.antt =====
-- Two clients on one file: the lock table of src/state/lock_mgr.cpp at concrete calls.
use lightnfs.Prelude.{
  ℕ, ◌+◌, ◌≡◌, ◌↔◌, refl, Bool, true, false, ◌||◌, none, some, List, [], ◌∷◌, arith, length,
  replicate, bytes_eq, max,
}
use lightnfs.Locks.Types.{
  LockOwnerId, LockRange, LockSeg, FileKey, uint64_max, same_owner, obj_eq, key_eq, range_end,
  conflict_of, to_range,
}
use lightnfs.Locks.Segs.{
  carve_seg, carve, insert_by_start, sort_by_start, fuses, fuse, absorb, absorb_all, coalesce,
}
use lightnfs.Locks.Canonical.{IsSorted, IsCanonical}
use lightnfs.Locks.Table.{
  find, put, erase, LockTable, empty_table, segments, first_conflict, account, store, emplace,
  grant, settle, lock, unlock, test, without_owner, owned, release_owner, count_owner,
}
use lightnfs.Locks.Account.{IsCounted}
use lightnfs.Locks.Safety.{
  IsSafe, IsFree, locked, in_range, lock-none_iff, locked-lock, lock-some, lock-IsSafe,
}
use lightnfs.Locks.Answers.{lock-IsCanonical, test-lock, lock_at_max}
use lightnfs.Locks.Unlock.{
  Call, locks, unlocks, releases, step, run, locked-unlock, locked-release, release-count,
  run_exclusive, run-IsCounted, empty_table-IsSafe,
}

abbrev alice : LockOwnerId
alice = record { bytes = 1 ∷ replicate 23 0; len = 20 }

abbrev bob : LockOwnerId
bob = record { bytes = 2 ∷ replicate 23 0; len = 20 }

abbrev file : FileKey
file = record { fsid = 1; oid = record { len = 1; bytes = 7 ∷ replicate 50 0 } }

abbrev range : ℕ → ℕ → LockRange
range offset length = record { offset = offset; length = length }

abbrev seg : LockOwnerId → ℕ → ℕ → Bool → LockSeg
seg o start end x = record { owner = o; start = start; end = end; exclusive = x }

-- Alice has the first 100 bytes exclusively.
abbrev one_lock : LockTable
one_lock = (lock empty_table file alice (range 0 100) true).1

-- Everything that a call computes with.
runs : LockTable → List Call → LockTable
unfolding run step lock unlock test release_owner count_owner settle emplace find put erase segments
    first_conflict store account grant without_owner owned carve_seg carve insert_by_start
    sort_by_start fuses fuse absorb absorb_all coalesce range_end to_range conflict_of same_owner
    obj_eq key_eq bytes_eq
runs = run

-- An unlock in the middle splits, an adjacent lock of the same mode fuses, and a downgrade splits again.
split_fuse :
    segments
      (run empty_table (
        locks file alice (range 0 100) true
        ∷ unlocks file alice (range 40 20)
        ∷ locks file alice (range 40 10) true
        ∷ locks file alice (range 10 10) false
        ∷ []))
      file
    ≡ seg alice 0 10 true
      ∷ seg alice 10 20 false
      ∷ seg alice 20 50 true
      ∷ seg alice 60 100 true
      ∷ []
unfolding runs
split_fuse = refl

-- The segments of a file need not stay sorted under `unlock`.
unsorted :
    segments
      (run empty_table (
        locks file alice (range 0 100) false
        ∷ locks file bob (range 10 10) false
        ∷ unlocks file alice (range 5 45)
        ∷ []))
      file
    ≡ seg alice 0 5 false ∷ seg alice 50 100 false ∷ seg bob 10 20 false ∷ []
unfolding runs
unsorted = refl

one_lock-IsSafe : IsSafe one_lock
unfolding range_end
one_lock-IsSafe =
    lock-IsSafe empty_table file alice (range 0 100) true empty_table-IsSafe (omega arith)

lock-none_iff_example :
    ((lock one_lock file bob (range 50 10) false).0 ≡ none)
    ↔ IsFree one_lock file bob (range 50 10) false
unfolding range_end
lock-none_iff_example =
    lock-none_iff one_lock file bob (range 50 10) false one_lock-IsSafe (omega arith)

locked-lock_example : locked (lock one_lock file bob (range 100 10) true).1 file bob true 105 ≡ true
unfolding runs
locked-lock_example =
    locked-lock one_lock file bob (range 100 10) true one_lock-IsSafe (omega arith) refl file bob
      true 105

lock-some_example :
    (s : LockSeg) × (conflict_of (seg alice 0 100 true) ≡ conflict_of s)
    × ((lock one_lock file bob (range 50 10) false).1 ≡ one_lock)
    × (same_owner s.owner bob ≡ false)
    × ((false || s.exclusive) ≡ true)
    × (in_range (range 50 10) (max 50 s.start) ≡ true)
    × (locked one_lock file s.owner s.exclusive (max 50 s.start) ≡ true)
unfolding runs
lock-some_example =
    lock-some one_lock file bob (range 50 10) false one_lock-IsSafe (omega arith)
      (conflict_of (seg alice 0 100 true)) refl

lock-IsCanonical_example :
    IsSorted (segments (lock one_lock file bob (range 100 10) true).1 file)
    × IsCanonical (segments (lock one_lock file bob (range 100 10) true).1 file)
unfolding runs
lock-IsCanonical_example =
    lock-IsCanonical one_lock file bob (range 100 10) true one_lock-IsSafe refl

test-lock_example :
    test one_lock file (some bob) (range 50 10) true ≡ (lock one_lock file bob (range 50 10) true).0
test-lock_example = test-lock one_lock file bob (range 50 10) true

locked-unlock_example : locked (unlock one_lock file alice (range 40 20)) file alice true 50 ≡ false
unfolding runs
locked-unlock_example =
    locked-unlock one_lock file alice one_lock-IsSafe (range 40 20) (omega arith) file alice true 50

locked-release_example : locked (release_owner one_lock file alice).1 file alice true 50 ≡ false
unfolding runs
locked-release_example = locked-release one_lock file alice one_lock-IsSafe file alice true 50

release-count_example :
    ((release_owner one_lock file alice).0 ≡ count_owner one_lock file alice)
    × (length (segments (release_owner one_lock file alice).1 file)
          + count_owner one_lock file alice
        ≡ length (segments one_lock file))
release-count_example = release-count one_lock file alice one_lock-IsSafe

abbrev calls : List Call
calls =
    locks file alice (range 0 100) true ∷ unlocks file alice (range 40 20) ∷ releases file bob ∷ []

run_exclusive_example : (same_owner alice alice ≡ true) × (◌≡◌ {A = Bool} true true)
unfolding runs
run_exclusive_example = run_exclusive calls (omega arith) file alice alice true 10 refl refl

run-IsCounted_example : IsCounted (run empty_table calls)
unfolding range_end
run-IsCounted_example = run-IsCounted calls (omega arith)

-- Alice has every offset to the end of the file exclusively, and so does bob from the last one.
lock_at_max_example :
    (lock
      (lock empty_table file alice (range 0 uint64_max) true).1
      file
      bob
      (range uint64_max uint64_max)
      true).0
    ≡ none
unfolding runs
lock_at_max_example =
    lock_at_max (lock empty_table file alice (range 0 uint64_max) true).1 file bob true
      (omega arith)
