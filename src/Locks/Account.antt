-- ===== src/Locks/Account.antt =====
-- The map of `GatewayLockMgr` (src/state/lock_mgr.cpp): its counters.
use lightnfs.Prelude.{
  ℕ, ◌≡◌, refl, ap, ◌∙◌, true, false, Option, some, List, [], ◌∷◌, ◌≢◌, ◌+◌, ◌%◌, ◌^◌, arith, ◌==◌,
  if◌then◌else◌, length, Bool-cases, inl, inr,
}
use lightnfs.Locks.Types.{FileKey, LockSeg, key_eq, key_eq-eq}
use lightnfs.Locks.Table.{Files, find, erase, LockTable, segments, account, is_empty, listed}
use lightnfs.Locks.Files.{IsDistinct, find-erase, erase-IsDistinct, size, size-erase}

-- The counters are right, no key occurs twice, and no file is kept without a segment.
pub record IsCounted (t : LockTable) : Type 0 where
  pub distinct : IsDistinct t.files
  pub total : t.total ≡ size t.files % 2 ^ 64
  pub file_count : t.file_count ≡ length t.files % 2 ^ 64
  pub used : (k : FileKey) → find k t.files ≢ some []

account-files :
    (t : LockTable) (k : FileKey) (segs : List LockSeg) (before : ℕ)
    → (account t k segs before).files ≡ (if is_empty segs then erase k t.files else t.files)
unfolding account
account-files t k [] before = refl
account-files t k (x ∷ segs) before = ground arith

no_segs : (segs : List LockSeg) → is_empty segs ≡ true → [] ≡ segs
no_segs [] e = refl
no_segs (x ∷ segs) e = cc

used_self :
    (segs : List LockSeg) {o p : Option (List LockSeg)}
    → is_empty segs ≡ false
    → o ≡ some segs
    → o ≡ p
    → p ≢ some []
used_self [] e f g h = cc
used_self (x ∷ segs) e f g h = cc

-- `account` brings `total` up to date with the list that the map holds for `k`, and drops the key
-- of an empty list.
module _ (t : LockTable) (k : FileKey) (segs : List LockSeg) (before s : ℕ)
    (f : find k t.files ≡ some segs) (p : t.total ≡ s % 2 ^ 64)
    (q : s + length segs ≡ size t.files + before) (n : t.file_count ≡ length t.files % 2 ^ 64)
    (d : IsDistinct t.files)
    (u : (j : FileKey) → key_eq k j ≡ false → find j t.files ≢ some []) where
  account-total : (account t k segs before).total ≡ size (account t k segs before).files % 2 ^ 64
  unfolding account
  account-total = elim (Bool-cases (length segs == 0)) [
    | inl e ↦ rw e (ground (arith, size-erase k segs t.files f))
    | inr e ↦ rw e (ground arith)
  ]

  account-file_count :
      (account t k segs before).file_count ≡ length (account t k segs before).files % 2 ^ 64
  unfolding account
  account-file_count = elim (Bool-cases (length segs == 0)) [
    | inl e ↦ rw e (ground (arith, size-erase k segs t.files f))
    | inr e ↦ rw e n
  ]

  account-IsDistinct : IsDistinct (account t k segs before).files
  account-IsDistinct = rw (account-files t k segs before) (elim (Bool-cases (is_empty segs)) [
    | inl e ↦ rw e (erase-IsDistinct k t.files d)
    | inr e ↦ rw e d
  ])

  account-used : (j : FileKey) → find j (account t k segs before).files ≢ some []
  account-used j = rw (account-files t k segs before) (elim (Bool-cases (is_empty segs)) [
    | inl e ↦ rw e (rw (find-erase j k t.files d) (λ h. ground (arith, u j)))
    | inr e ↦ rw e (λ h. elim (Bool-cases (key_eq k j)) [
      | inl same ↦ used_self segs e f (ap (λ (i : FileKey). find i t.files) (key_eq-eq k j same)) h
      | inr other ↦ u j other h
    ])
  ])

  pub account-IsCounted : IsCounted (account t k segs before)
  account-IsCounted = record {
    distinct = account-IsDistinct;
    total = account-total;
    file_count = account-file_count;
    used = account-used;
  }

-- The lists that a step of `account` leaves are those of the map before it.
pub segments-account :
    (t : LockTable) (k : FileKey) (segs : List LockSeg) (before : ℕ) (j : FileKey)
    → find k t.files ≡ some segs
    → IsDistinct t.files
    → segments (account t k segs before) j ≡ segments t j
unfolding segments
segments-account t k segs before j f d =
    ap (λ (files : Files). listed (find j files)) (account-files t k segs before)
    ∙ elim (Bool-cases (is_empty segs)) [
      | inl e ↦ rw e (
          rw (find-erase j k t.files d) (elim (Bool-cases (key_eq k j)) [
            | inl same ↦ rw (same, ← key_eq-eq k j same, f) (no_segs segs e)
            | inr other ↦ rw other
          ]))
      | inr e ↦ rw e
    ]
