-- ===== src/Locks/Files.antt =====
-- The map of `GatewayLockMgr` (src/state/lock_mgr.cpp): lookups after writes, and what each kind of
-- step leaves in it.
use lightnfs.Prelude.{
  ℕ, ◌≡◌, refl, none, some, List, [], ◌∷◌, ◌+◌, arith, if◌then◌else◌, length, Bool-cases, inl, inr,
}
use lightnfs.Locks.Types.{FileKey, LockSeg, key_eq, key_eq_refl, key_eq-eq}
use lightnfs.Locks.Table.{Files, find, put, erase}

-- No key occurs twice.
abbrev pub IsDistinct : Files → Type 0
IsDistinct [] = Unit {0}
IsDistinct ((k, segs) ∷ files) = (find k files ≡ none) × IsDistinct files

pub find-put :
    (j k : FileKey) (segs : List LockSeg) (files : Files)
    → find j (put k segs files) ≡ (if key_eq k j then some segs else find j files)
unfolding find put
find-put j k segs [] = refl
find-put j k segs ((i, old) ∷ files) = ground (
  arith,
  find-put j k segs files,
  key_eq-eq i k,
  key_eq-eq i j,
  key_eq-eq k j,
  key_eq_refl i,
  key_eq_refl k,
)

pub put-IsDistinct :
    (k : FileKey) (segs : List LockSeg) (files : Files)
    → IsDistinct files
    → IsDistinct (put k segs files)
unfolding find put
put-IsDistinct k segs [] h = (refl, tt)
put-IsDistinct k segs ((i, old) ∷ files) h = elim (Bool-cases (key_eq i k)) [
  | inl e ↦ rw e h
  | inr e ↦ rw e (
    rw find-put (ground (arith, h.0, key_eq-eq k i, key_eq_refl i)),
    put-IsDistinct k segs files h.1,
  )
]

pub find-erase :
    (j k : FileKey) (files : Files)
    → IsDistinct files
    → find j (erase k files) ≡ (if key_eq k j then none else find j files)
unfolding find erase
find-erase j k [] h = ground arith
find-erase j k ((i, old) ∷ files) h = ground (
  arith,
  find-erase j k files h.1,
  key_eq-eq i k,
  key_eq-eq i j,
  key_eq-eq k j,
  key_eq_refl i,
  key_eq_refl k,
)

pub erase-IsDistinct : (k : FileKey) (files : Files) → IsDistinct files → IsDistinct (erase k files)
unfolding find erase
erase-IsDistinct k [] h = tt
erase-IsDistinct k ((i, old) ∷ files) h = elim (Bool-cases (key_eq i k)) [
  | inl e ↦ rw e h.1
  | inr e ↦ rw e (rw (find-erase i k files h.1) (ground arith), erase-IsDistinct k files h.1)
]

-- The segments of all files.
abbrev pub size : Files → ℕ
size [] = 0
size ((k, segs) ∷ files) = length segs + size files

pub size-put_new :
    (k : FileKey) (segs : List LockSeg) (files : Files)
    → find k files ≡ none
    → (size (put k segs files) ≡ size files + length segs)
      × (length (put k segs files) ≡ length files + 1)
unfolding find put
size-put_new k segs [] h = omega arith
size-put_new k segs ((i, old) ∷ files) h = ground (arith, size-put_new k segs files)

pub size-put_old :
    (k : FileKey) (segs before : List LockSeg) (files : Files)
    → find k files ≡ some before
    → (size (put k segs files) + length before ≡ size files + length segs)
      × (length (put k segs files) ≡ length files)
unfolding find put
size-put_old k segs before [] h = cc
size-put_old k segs before ((i, old) ∷ files) h = ground (arith, size-put_old k segs before files)

pub size-erase :
    (k : FileKey) (segs : List LockSeg) (files : Files)
    → find k files ≡ some segs
    → (size (erase k files) + length segs ≡ size files)
      × (length (erase k files) + 1 ≡ length files)
unfolding find erase
size-erase k segs [] h = cc
size-erase k segs ((i, old) ∷ files) h = ground (arith, size-erase k segs files)
