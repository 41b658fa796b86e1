-- ===== src/Locks/Table.antt =====
-- `GatewayLockMgr` of src/state/lock_mgr.cpp. The 16 shards split one map by the hash of its key to
-- spread a mutex: here the map is whole, and each call, made under its shard's mutex, is one step.
use lightnfs.Prelude.{
  ℕ, suc, ◌+◌, ◌-◌, ◌%◌, ◌^◌, Bool, true, false, ◌||◌, not, Option, none, some, List, [], ◌∷◌, ◌++◌,
  ltb, ◌==◌, if◌then◌else◌, length,
}
use lightnfs.Locks.Types.{
  LockOwnerId, LockRange, LockConflict, LockSeg, FileKey, same_owner, key_eq, range_end, overlaps,
  conflict_of,
}
use lightnfs.Locks.Segs.{carve, coalesce}

-- The map from files to segment lists.
abbrev pub Files : Type 0
Files = List (FileKey × List LockSeg)

unfoldable pub find : FileKey → Files → Option (List LockSeg)
find k [] = none
find k ((j, segs) ∷ files) = if key_eq j k then some segs else find k files

-- Writes the list of a key, in place if the key is there.
unfoldable pub put : FileKey → List LockSeg → Files → Files
put k segs [] = (k, segs) ∷ []
put k segs ((j, old) ∷ files) =
    if key_eq j k then (j, segs) ∷ files else (j, old) ∷ put k segs files

unfoldable pub erase : FileKey → Files → Files
erase k [] = []
erase k ((j, old) ∷ files) = if key_eq j k then files else (j, old) ∷ erase k files

-- `total_` and `files_` are 64-bit counters.
pub record LockTable : Type 0 where
  pub files : Files
  pub total : ℕ
  pub file_count : ℕ

abbrev pub empty_table : LockTable
empty_table = record { files = []; total = 0; file_count = 0 }

abbrev pub add64 : ℕ → ℕ → ℕ
add64 a b = (a + b) % 2 ^ 64

abbrev pub sub64 : ℕ → ℕ → ℕ
sub64 a b = (a + (2 ^ 64 - b % 2 ^ 64)) % 2 ^ 64

abbrev pub is_empty {ℓ} : {A : Type ℓ} → List A → Bool
is_empty [] = true
is_empty (x ∷ xs) = false

abbrev pub listed : Option (List LockSeg) → List LockSeg
listed none = []
listed (some segs) = segs

-- What `segments` returns: a missing file has none.
unfoldable pub segments : LockTable → FileKey → List LockSeg
segments t k = listed (find k t.files)

abbrev pub is_mine : Option LockOwnerId → LockOwnerId → Bool
is_mine none a = false
is_mine (some owner) a = same_owner a owner

-- The scan of `lock`.
unfoldable pub first_conflict : LockOwnerId → ℕ → ℕ → Bool → List LockSeg → Option LockSeg
first_conflict owner start end exclusive [] = none
first_conflict owner start end exclusive (s ∷ segs) =
    let rest = first_conflict owner start end exclusive segs in
    if same_owner s.owner owner || not (overlaps s start end)
    then rest
    else if exclusive || s.exclusive
    then some s
    else rest

-- After the list of `k` went from `before` segments to `segs`, which the map holds already.
unfoldable pub account : LockTable → FileKey → List LockSeg → ℕ → LockTable
account t k segs before =
    let total =
      if ltb before (length segs)
      then add64 t.total (length segs - before)
      else if ltb (length segs) before
      then sub64 t.total (before - length segs)
      else t.total in
    if length segs == 0
    then record t { files = erase k t.files; total = total; file_count = sub64 t.file_count 1 }
    else record t { total = total }

-- The list of `k`, changed in place, and its accounting.
unfoldable pub store : LockTable → FileKey → List LockSeg → ℕ → LockTable
store t k segs before = account (record t { files = put k segs t.files }) k segs before

-- `try_emplace`, with the count of files.
unfoldable pub emplace : LockTable → FileKey → LockTable
emplace t k = elim (find k t.files) [
  | none ↦ record t { files = put k [] t.files; file_count = add64 t.file_count 1 }
  | some segs ↦ t
]

-- The new list of a file whose lock is granted.
unfoldable pub grant : LockOwnerId → ℕ → ℕ → Bool → List LockSeg → List LockSeg
grant owner start end exclusive segs = coalesce (
    carve owner start end segs
    ++ record { owner = owner; start = start; end = end; exclusive = exclusive } ∷ [])

-- The end of `lock`: with what the scan of `segs` found, over the table that holds `segs` for `k`.
unfoldable pub settle :
    LockTable
    → FileKey
    → LockOwnerId
    → LockRange
    → Bool
    → List LockSeg
    → Option LockSeg
    → Option LockConflict × LockTable
settle t k owner range exclusive segs (some s) =
    if is_empty segs
    then (
      some (conflict_of s),
      record t { files = erase k t.files; file_count = sub64 t.file_count 1 },
    )
    else (some (conflict_of s), t)
settle t k owner range exclusive segs none =
    (none, store t k (grant owner range.offset (range_end range) exclusive segs) (length segs))

unfoldable pub lock :
    LockTable → FileKey → LockOwnerId → LockRange → Bool → Option LockConflict × LockTable
lock t k owner range exclusive =
    let t' = emplace t k in
    let segs = segments t' k in
    settle t' k owner range exclusive segs
      (first_conflict owner range.offset (range_end range) exclusive segs)

unfoldable pub unlock : LockTable → FileKey → LockOwnerId → LockRange → LockTable
unlock t k owner range = elim (find k t.files) [
  | none ↦ t
  | some segs ↦
      let segs' = carve owner range.offset (range_end range) segs in store t k segs' (length segs)
]

-- The scan of `test`, which may ask for no owner in particular.
unfoldable pub test_segs : Option LockOwnerId → ℕ → ℕ → Bool → List LockSeg → Option LockConflict
test_segs owner start end exclusive [] = none
test_segs owner start end exclusive (s ∷ segs) =
    let rest = test_segs owner start end exclusive segs in
    if is_mine owner s.owner || not (overlaps s start end)
    then rest
    else if exclusive || s.exclusive
    then some (conflict_of s)
    else rest

unfoldable pub test :
    LockTable → FileKey → Option LockOwnerId → LockRange → Bool → Option LockConflict
test t k owner range exclusive = elim (find k t.files) [
  | none ↦ none
  | some segs ↦ test_segs owner range.offset (range_end range) exclusive segs
]

-- `std::remove_if` and `std::count_if` on the owner.
unfoldable pub without_owner : LockOwnerId → List LockSeg → List LockSeg
without_owner owner [] = []
without_owner owner (s ∷ segs) =
    let rest = without_owner owner segs in if same_owner s.owner owner then rest else s ∷ rest

unfoldable pub owned : LockOwnerId → List LockSeg → ℕ
owned owner [] = 0
owned owner (s ∷ segs) =
    let rest = owned owner segs in if same_owner s.owner owner then suc rest else rest

unfoldable pub release_owner : LockTable → FileKey → LockOwnerId → ℕ × LockTable
release_owner t k owner = elim (find k t.files) [
  | none ↦ (0, t)
  | some segs ↦
      let segs' = without_owner owner segs in
      (length segs - length segs', store t k segs' (length segs))
]

unfoldable pub count_owner : LockTable → FileKey → LockOwnerId → ℕ
count_owner t k owner = elim (find k t.files) [ none ↦ 0 | some segs ↦ owned owner segs ]
