-- ===== src/Locks/Steps.antt =====
-- What each call of `GatewayLockMgr` (src/state/lock_mgr.cpp) does to the table.
use mathlib.Core.Bool.{false≢true}
use lightnfs.Prelude.{
  ℕ, ◌+◌, ◌%◌, ◌^◌, ◌≡◌, ◌≢◌, refl, sym, ap, ◌∙◌, inl, inr, Bool, true, false, Option, none, some,
  List, [], ◌∷◌, arith, if◌then◌else◌, length, Bool-cases, Option-cases,
}
use lightnfs.Locks.Types.{
  LockOwnerId, LockRange, LockSeg, FileKey, key_eq, key_eq-eq, key_eq_refl, range_end, conflict_of,
}
use lightnfs.Locks.Table.{
  find, put, LockTable, listed, segments, store, emplace, first_conflict, grant, lock, settle,
  is_empty,
}
use lightnfs.Locks.Files.{IsDistinct, find-put, put-IsDistinct, size, size-put_new, size-put_old}
use lightnfs.Locks.Account.{IsCounted, account-IsCounted, segments-account}

module _ (t : LockTable) (k : FileKey) (segs : List LockSeg) (before : ℕ) where
  find-put_self : find k (put k segs t.files) ≡ some segs
  find-put_self = rw (find-put k k segs t.files, key_eq_refl k)

  pub segments-store :
      (j : FileKey)
      → IsDistinct t.files
      → segments (store t k segs before) j ≡ (if key_eq k j then segs else segments t j)
  unfolding store segments
  segments-store j d =
      rw
        (segments-account (record t { files = put k segs t.files }) k segs before j find-put_self
          (put-IsDistinct k segs t.files d))
        (rw (find-put j k segs t.files)
          (elim (Bool-cases (key_eq k j)) [ inl e ↦ rw e | inr e ↦ rw e ]))

  pub store-IsCounted :
      (old : List LockSeg)
      → find k t.files ≡ some old
      → before ≡ length old
      → t.total ≡ size t.files % 2 ^ 64
      → t.file_count ≡ length t.files % 2 ^ 64
      → IsDistinct t.files
      → ((j : FileKey) → key_eq k j ≡ false → find j t.files ≢ some [])
      → IsCounted (store t k segs before)
  unfolding store
  store-IsCounted old f b p n d u =
      let sizes = size-put_old k segs old t.files f in
      account-IsCounted (record t { files = put k segs t.files }) k segs before (size t.files)
        find-put_self p (omega (arith, sizes.0)) (omega (arith, sizes.1))
        (put-IsDistinct k segs t.files d) (λ j e. rw (find-put j k segs t.files, e) (u j e))

module _ (t : LockTable) (k : FileKey) where
  emplace_old : (segs : List LockSeg) → find k t.files ≡ some segs → emplace t k ≡ t
  unfolding emplace
  emplace_old segs e = rw (e, emplace)

  emplace_new :
      find k t.files ≡ none
      → emplace t k
        ≡ record t { files = put k [] t.files; file_count = (t.file_count + 1) % 2 ^ 64 }
  unfolding emplace
  emplace_new e = rw (e, emplace)

  pub find-emplace : find k (emplace t k).files ≡ some (segments t k)
  unfolding segments
  find-emplace = elim (Option-cases (find k t.files)) [
    | inl e ↦ rw (emplace_new e) (rw (e, find-put k k [] t.files, key_eq_refl k))
    | inr (segs, e) ↦ rw (emplace_old segs e) (rw e refl)
  ]

  pub segments-emplace : (j : FileKey) → segments (emplace t k) j ≡ segments t j
  unfolding segments
  segments-emplace j = elim (Option-cases (find k t.files)) [
    | inl e ↦ rw (emplace_new e) (rw (find-put j k [] t.files) (missing (key_eq k j) refl e))
    | inr (segs, e) ↦ rw (emplace_old segs e)
  ]
    where
      missing :
          (b : Bool)
          → key_eq k j ≡ b
          → find k t.files ≡ none
          → listed (if b then some [] else find j t.files) ≡ listed (find j t.files)
      missing true q e = rw (← key_eq-eq k j q, e)
      missing false q e = refl

  full_empty : {segs : List LockSeg} → segs ≡ [] → is_empty segs ≢ false
  full_empty e h = false≢true (sym h ∙ ap is_empty e)

  -- The table after a granted call.
  abbrev pub granted_table : LockOwnerId → LockRange → Bool → LockTable
  granted_table o r x =
      store (emplace t k) k (grant o r.offset (range_end r) x (segments t k))
        (length (segments t k))

  module _ (o : LockOwnerId) (r : LockRange) (x : Bool) where
    abbrev scan : List LockSeg → Option LockSeg
    scan = first_conflict o r.offset (range_end r) x

    scan-some : (segs : List LockSeg) (s : LockSeg) → scan segs ≡ some s → is_empty segs ≡ false
    unfolding first_conflict
    scan-some [] s e = cc
    scan-some (y ∷ segs) s e = refl

    settle_refused :
        (u : LockTable) (segs : List LockSeg) (s : LockSeg)
        → is_empty segs ≡ false
        → settle u k o r x segs (some s) ≡ (some (conflict_of s), u)
    unfolding settle
    settle_refused u segs s e = rw (e, settle)

    lock-settle : lock t k o r x ≡ settle (emplace t k) k o r x (segments t k) (scan (segments t k))
    unfolding lock
    lock-settle = ap (λ segs. settle (emplace t k) k o r x segs (scan segs)) (segments-emplace k)

    -- A refused call leaves the table as it was.
    pub lock_refused :
        (s : LockSeg) → scan (segments t k) ≡ some s → lock t k o r x ≡ (some (conflict_of s), t)
    unfolding segments
    lock_refused s e =
        lock-settle
        ∙ ap (settle (emplace t k) k o r x (segments t k)) e
        ∙ elim (Option-cases (find k t.files)) [
          | inl f ↦
              let none_there : segments t k ≡ [] = rw (f, segments) in
              absurd (full_empty none_there (scan-some (segments t k) s e))
          | inr (segs, f) ↦
              settle_refused (emplace t k) (segments t k) s (scan-some (segments t k) s e)
              ∙ ap (λ (u : LockTable). (some (conflict_of s), u)) (emplace_old segs f)
        ]

    pub lock_granted : scan (segments t k) ≡ none → lock t k o r x ≡ (none, granted_table o r x)
    unfolding settle
    lock_granted e = lock-settle ∙ ap (settle (emplace t k) k o r x (segments t k)) e

  module _ (c : IsCounted t) where
    emplace-IsDistinct : IsDistinct (emplace t k).files
    emplace-IsDistinct = elim (Option-cases (find k t.files)) [
      | inl e ↦ rw (emplace_new e) (put-IsDistinct k [] t.files c.distinct)
      | inr (segs, e) ↦ rw (emplace_old segs e) c.distinct
    ]

    emplace-total : (emplace t k).total ≡ size (emplace t k).files % 2 ^ 64
    emplace-total = elim (Option-cases (find k t.files)) [
      | inl e ↦ rw (emplace_new e) (omega (arith, c.total, size-put_new k [] t.files e))
      | inr (segs, e) ↦ rw (emplace_old segs e) c.total
    ]

    emplace-file_count : (emplace t k).file_count ≡ length (emplace t k).files % 2 ^ 64
    emplace-file_count = elim (Option-cases (find k t.files)) [
      | inl e ↦ rw (emplace_new e) (omega (arith, c.file_count, size-put_new k [] t.files e))
      | inr (segs, e) ↦ rw (emplace_old segs e) c.file_count
    ]

    emplace_used : (j : FileKey) → key_eq k j ≡ false → find j (emplace t k).files ≢ some []
    emplace_used j q = elim (Option-cases (find k t.files)) [
      | inl e ↦ rw (emplace_new e) (rw (find-put j k [] t.files, q) (c.used j))
      | inr (segs, e) ↦ rw (emplace_old segs e) (c.used j)
    ]

    -- A granted lock changes the list of its file alone.
    pub segments-granted :
        (o : LockOwnerId) (r : LockRange) (x : Bool) (j : FileKey)
        → segments (granted_table o r x) j
          ≡ (if key_eq k j then grant o r.offset (range_end r) x (segments t k) else segments t j)
    segments-granted o r x j =
        segments-store (emplace t k) k _ (length (segments t k)) j emplace-IsDistinct
        ∙ ap (λ segs. if key_eq k j then grant o r.offset (range_end r) x (segments t k) else segs)
            (segments-emplace j)

    pub granted-IsCounted :
        (o : LockOwnerId) (r : LockRange) (x : Bool) → IsCounted (granted_table o r x)
    granted-IsCounted o r x =
        store-IsCounted (emplace t k) k _ (length (segments t k)) (segments t k) find-emplace refl
          emplace-total emplace-file_count emplace-IsDistinct emplace_used
