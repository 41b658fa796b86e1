-- ===== src/Errmap/ByError3.antt =====
-- The answers of src/core/errmap.cpp to NFSv3 by the error, not by the procedure as the code has them.
use lightnfs.Prelude.{
  ℕ, ◌≡◌, refl, ◌||◌, not, inl, inr, Bool, true, false, List, [], ◌∷◌, ◌==◌, if◌then◌else◌, All,
  Bool-cases,
}
use lightnfs.Nfs3.Status.{Status}
use lightnfs.Nfs3.Proc.{Proc}
use lightnfs.Nfs3.Proc.{◌≟◌}
use lightnfs.Errmap.Errno
use lightnfs.Errmap.V3.{in_cases, raw_mapping, error_allowed, to_v3}

-- The procedures that may answer with a status.
pub data Who : Type 0 where
  everyone : Who
  only but : List Proc → Who

unfoldable listed : Proc → List Proc → Bool
unfolding ◌≟◌
listed p [] = false
listed p (q ∷ qs) = p ≟ q || listed p qs

unfoldable pub may : Proc → Who → Bool
unfolding listed
may p everyone = true
may p (only qs) = listed p qs
may p (but qs) = not (listed p qs)

-- An error, its status, and who may have it; everyone else has IO, as for any other error.
abbrev pub table : List (ℕ × Status × Who)
table =
    (Errno.bad_handle, Status.badhandle, but (Proc.null ∷ []))
    ∷ (
      Errno.jukebox,
      Status.jukebox,
      only (
          Proc.null ∷ Proc.setattr ∷ Proc.read ∷ Proc.write ∷ Proc.create ∷ Proc.remove
          ∷ Proc.rename ∷ []),
    )
    ∷ (
      Errno.eperm,
      Status.perm,
      only (Proc.null ∷ Proc.setattr ∷ Proc.mknod ∷ Proc.remove ∷ Proc.rmdir ∷ Proc.link ∷ []),
    )
    ∷ (
      Errno.enoent,
      Status.noent,
      only (Proc.null ∷ Proc.lookup ∷ Proc.remove ∷ Proc.rmdir ∷ Proc.rename ∷ Proc.link ∷ []),
    )
    ∷ (Errno.eio, Status.io, everyone)
    ∷ (Errno.enxio, Status.nxio, only (Proc.null ∷ Proc.read ∷ []))
    ∷ (
      Errno.eacces,
      Status.acces,
      only (
          Proc.null ∷ Proc.setattr ∷ Proc.lookup ∷ Proc.readlink ∷ Proc.read ∷ Proc.write
          ∷ Proc.create ∷ Proc.mkdir ∷ Proc.symlink ∷ Proc.mknod ∷ Proc.remove ∷ Proc.rmdir
          ∷ Proc.rename ∷ Proc.link ∷ Proc.readdir ∷ Proc.readdirplus ∷ []),
    )
    ∷ (
      Errno.eexist,
      Status.exist,
      only (
          Proc.null ∷ Proc.create ∷ Proc.mkdir ∷ Proc.symlink ∷ Proc.mknod ∷ Proc.rmdir
          ∷ Proc.rename ∷ Proc.link ∷ []),
    )
    ∷ (Errno.exdev, Status.xdev, only (Proc.null ∷ Proc.rename ∷ Proc.link ∷ []))
    ∷ (Errno.enodev, Status.nodev, only (Proc.null ∷ []))
    ∷ (
      Errno.enotdir,
      Status.notdir,
      only (
          Proc.null ∷ Proc.lookup ∷ Proc.create ∷ Proc.mkdir ∷ Proc.symlink ∷ Proc.mknod
          ∷ Proc.remove ∷ Proc.rmdir ∷ Proc.rename ∷ Proc.link ∷ Proc.readdir ∷ Proc.readdirplus
          ∷ []),
    )
    ∷ (
      Errno.eisdir,
      Status.isdir,
      only (Proc.null ∷ Proc.setattr ∷ Proc.read ∷ Proc.write ∷ Proc.remove ∷ Proc.rename ∷ []),
    )
    ∷ (
      Errno.einval,
      Status.inval,
      only (
          Proc.null ∷ Proc.setattr ∷ Proc.readlink ∷ Proc.read ∷ Proc.write ∷ Proc.rmdir
          ∷ Proc.rename ∷ Proc.link ∷ []),
    )
    ∷ (Errno.efbig, Status.fbig, only (Proc.null ∷ Proc.setattr ∷ Proc.write ∷ []))
    ∷ (
      Errno.enospc,
      Status.nospc,
      only (
          Proc.null ∷ Proc.setattr ∷ Proc.write ∷ Proc.create ∷ Proc.mkdir ∷ Proc.symlink
          ∷ Proc.mknod ∷ Proc.rename ∷ Proc.link ∷ []),
    )
    ∷ (
      Errno.erofs,
      Status.rofs,
      only (
          Proc.null ∷ Proc.setattr ∷ Proc.write ∷ Proc.create ∷ Proc.mkdir ∷ Proc.symlink
          ∷ Proc.mknod ∷ Proc.remove ∷ Proc.rmdir ∷ Proc.rename ∷ Proc.link ∷ []),
    )
    ∷ (Errno.emlink, Status.mlink, only (Proc.null ∷ Proc.mkdir ∷ Proc.rename ∷ Proc.link ∷ []))
    ∷ (
      Errno.enametoolong,
      Status.nametoolong,
      only (
          Proc.null ∷ Proc.lookup ∷ Proc.create ∷ Proc.mkdir ∷ Proc.symlink ∷ Proc.mknod
          ∷ Proc.remove ∷ Proc.rmdir ∷ Proc.rename ∷ Proc.link ∷ []),
    )
    ∷ (Errno.enotempty, Status.notempty, only (Proc.null ∷ Proc.rmdir ∷ Proc.rename ∷ []))
    ∷ (
      Errno.edquot,
      Status.dquot,
      only (
          Proc.null ∷ Proc.setattr ∷ Proc.write ∷ Proc.create ∷ Proc.mkdir ∷ Proc.symlink
          ∷ Proc.mknod ∷ Proc.rename ∷ Proc.link ∷ []),
    )
    ∷ (Errno.estale, Status.stale, but (Proc.null ∷ []))
    ∷ (
      Errno.eopnotsupp,
      Status.notsupp,
      only (
          Proc.null ∷ Proc.readlink ∷ Proc.create ∷ Proc.symlink ∷ Proc.mknod ∷ Proc.rmdir
          ∷ Proc.rename ∷ Proc.link ∷ Proc.readdirplus ∷ []),
    )
    ∷ []

unfoldable pub answer_in : ℕ → Proc → List (ℕ × Status × Who) → Status
unfolding may
answer_in e p [] = Status.io
answer_in e p ((f, s, who) ∷ rows) =
    if e == f then (if may p who then s else Status.io) else answer_in e p rows

unfoldable pub answer : ℕ → Proc → Status
unfolding answer_in
answer e p = answer_in e p table

-- What `to_v3` makes of a status.
abbrev folded : Proc → Status → Status
folded p s = if error_allowed p s then s else Status.io

-- A row says what the code answers.
abbrev IsRow : Proc → ℕ × Status × Who → Type 0
IsRow p (f, s, who) = folded p s ≡ (if may p who then s else Status.io)

abbrev cases_of : List (ℕ × Status × Who) → List (ℕ × Status)
cases_of [] = []
cases_of ((f, s, who) ∷ rows) = (f, s) ∷ cases_of rows

io-folded : (p : Proc) → folded p Status.io ≡ Status.io
unfolding error_allowed
io-folded p = refl

in_cases-answer_in :
    (e : ℕ) (p : Proc) (rows : List (ℕ × Status × Who))
    → All (IsRow p) rows
    → folded p (in_cases e (cases_of rows)) ≡ answer_in e p rows
unfolding in_cases answer_in
in_cases-answer_in e p [] h = io-folded p
in_cases-answer_in e p ((f, s, who) ∷ rows) (here, later) = elim (Bool-cases (e == f)) [
  | inl q ↦ rw q here
  | inr q ↦ rw q (in_cases-answer_in e p rows later)
]

infixr 20 ◌&◌
◌&◌ : {A B : Type 0} → A → B → A × B
a & b = (a, b)

table-IsRow : (p : Proc) → All (IsRow p) table
unfolding error_allowed may
table-IsRow Proc.null =
    refl & refl & refl & refl & refl & refl & refl & refl & refl & refl & refl & refl & refl & refl
    & refl & refl & refl & refl & refl & refl & refl & refl & tt
table-IsRow _ =
    refl & refl & refl & refl & refl & refl & refl & refl & refl & refl & refl & refl & refl & refl
    & refl & refl & refl & refl & refl & refl & refl & refl & tt

pub to_v3-answer : (e : ℕ) (p : Proc) → to_v3 e p ≡ answer e p
unfolding to_v3 raw_mapping in_cases answer
to_v3-answer e p = in_cases-answer_in e p table (table-IsRow p)
