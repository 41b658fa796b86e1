-- ===== src/Errmap/ByError4.antt =====
-- The answers of src/core/errmap.cpp to NFSv4 by the error, not by the operation as the code has them.
use lightnfs.Prelude.{
  ℕ, ◌≡◌, refl, ◌||◌, inl, inr, Bool, true, false, List, [], ◌∷◌, ◌==◌, if◌then◌else◌, All,
  Bool-cases,
}
use lightnfs.Nfs4.Status.{Status}
use lightnfs.Nfs4.Op.{Op}
use lightnfs.Nfs4.Op.{◌≟◌}
use lightnfs.Errmap.Errno
use lightnfs.Errmap.V4.{in_cases, raw_mapping, error_allowed, to_v4}

-- The operations that may answer with a status.
pub data Who : Type 0 where
  everyone : Who
  only : List Op → Who

-- The operations that may answer with any status.
abbrev pub free : List Op
free =
    Op.delegreturn ∷ Op.openattr ∷ Op.putpubfh ∷ Op.bind_conn_to_session ∷ Op.exchange_id
    ∷ Op.create_session ∷ Op.destroy_session ∷ Op.sequence ∷ Op.destroy_clientid ∷ Op.copy_notify
    ∷ Op.io_advise ∷ Op.layouterror ∷ Op.layoutstats ∷ Op.offload_cancel ∷ Op.offload_status
    ∷ Op.read_plus ∷ Op.write_same ∷ Op.get_xattr ∷ Op.set_xattr ∷ Op.list_xattrs ∷ Op.remove_xattr
    ∷ Op.illegal ∷ []

unfoldable listed : Op → List Op → Bool
unfolding ◌≟◌
listed o [] = false
listed o (q ∷ qs) = o ≟ q || listed o qs

unfoldable pub may : Op → Who → Bool
unfolding listed
may o everyone = true
may o (only qs) = listed o free || listed o qs

-- An error, its status, and who may have it; everyone else has IO, as for any other error.
abbrev pub table : List (ℕ × Status × Who)
table =
    (Errno.bad_handle, Status.badhandle, everyone)
    ∷ (Errno.jukebox, Status.delay, everyone)
    ∷ (Errno.moved, Status.moved, everyone)
    ∷ (
      Errno.eperm,
      Status.perm,
      only (Op.create ∷ Op.link ∷ Op.open_op ∷ Op.remove ∷ Op.rename ∷ Op.setattr ∷ []),
    )
    ∷ (
      Errno.enoent,
      Status.noent,
      only (
          Op.create ∷ Op.link ∷ Op.lookup ∷ Op.lookupp ∷ Op.open_op ∷ Op.remove ∷ Op.rename
          ∷ Op.secinfo ∷ Op.secinfo_no_name ∷ []),
    )
    ∷ (Errno.eio, Status.io, everyone)
    ∷ (Errno.enxio, Status.nxio, only (Op.seek ∷ []))
    ∷ (Errno.eacces, Status.access, everyone)
    ∷ (Errno.eexist, Status.exist, only (Op.create ∷ Op.link ∷ Op.open_op ∷ Op.rename ∷ []))
    ∷ (Errno.exdev, Status.xdev, only (Op.link ∷ Op.rename ∷ Op.copy ∷ Op.clone ∷ []))
    ∷ (
      Errno.enotdir,
      Status.notdir,
      only (
          Op.create ∷ Op.link ∷ Op.lookup ∷ Op.lookupp ∷ Op.open_op ∷ Op.readdir ∷ Op.remove
          ∷ Op.rename ∷ Op.secinfo ∷ Op.secinfo_no_name ∷ []),
    )
    ∷ (
      Errno.eisdir,
      Status.isdir,
      only (
          Op.commit ∷ Op.link ∷ Op.lock ∷ Op.lockt ∷ Op.locku ∷ Op.open_op ∷ Op.read ∷ Op.rename
          ∷ Op.setattr ∷ Op.write ∷ Op.allocate ∷ Op.copy ∷ Op.deallocate ∷ Op.seek ∷ Op.clone
          ∷ []),
    )
    ∷ (
      Errno.einval,
      Status.inval,
      only (
          Op.close ∷ Op.commit ∷ Op.create ∷ Op.link ∷ Op.lock ∷ Op.lockt ∷ Op.locku ∷ Op.open_op
          ∷ Op.open_downgrade ∷ Op.read ∷ Op.readdir ∷ Op.readlink ∷ Op.remove ∷ Op.rename
          ∷ Op.secinfo ∷ Op.setattr ∷ Op.write ∷ Op.secinfo_no_name ∷ Op.allocate ∷ Op.copy
          ∷ Op.deallocate ∷ Op.seek ∷ Op.clone ∷ []),
    )
    ∷ (
      Errno.efbig,
      Status.fbig,
      only (Op.setattr ∷ Op.write ∷ Op.allocate ∷ Op.copy ∷ Op.deallocate ∷ Op.clone ∷ []),
    )
    ∷ (
      Errno.enospc,
      Status.nospc,
      only (
          Op.create ∷ Op.link ∷ Op.open_op ∷ Op.rename ∷ Op.setattr ∷ Op.write ∷ Op.allocate
          ∷ Op.copy ∷ Op.deallocate ∷ Op.clone ∷ []),
    )
    ∷ (
      Errno.erofs,
      Status.rofs,
      only (
          Op.commit ∷ Op.create ∷ Op.link ∷ Op.open_op ∷ Op.remove ∷ Op.rename ∷ Op.setattr
          ∷ Op.write ∷ Op.allocate ∷ Op.copy ∷ Op.deallocate ∷ Op.clone ∷ []),
    )
    ∷ (Errno.emlink, Status.mlink, only (Op.create ∷ Op.link ∷ Op.rename ∷ []))
    ∷ (
      Errno.enametoolong,
      Status.nametoolong,
      only (Op.create ∷ Op.link ∷ Op.lookup ∷ Op.open_op ∷ Op.remove ∷ Op.rename ∷ Op.secinfo ∷ []),
    )
    ∷ (Errno.enotempty, Status.notempty, only (Op.remove ∷ Op.rename ∷ []))
    ∷ (
      Errno.edquot,
      Status.dquot,
      only (
          Op.create ∷ Op.link ∷ Op.open_op ∷ Op.rename ∷ Op.setattr ∷ Op.write ∷ Op.allocate
          ∷ Op.copy ∷ Op.deallocate ∷ Op.clone ∷ []),
    )
    ∷ (Errno.estale, Status.stale, everyone)
    ∷ (
      Errno.eopnotsupp,
      Status.notsupp,
      only (
          Op.create ∷ Op.link ∷ Op.readlink ∷ Op.allocate ∷ Op.copy ∷ Op.deallocate ∷ Op.seek
          ∷ Op.clone ∷ []),
    )
    ∷ []

unfoldable pub answer_in : ℕ → Op → List (ℕ × Status × Who) → Status
unfolding may
answer_in e o [] = Status.io
answer_in e o ((f, s, who) ∷ rows) =
    if e == f then (if may o who then s else Status.io) else answer_in e o rows

unfoldable pub answer : ℕ → Op → Status
unfolding answer_in
answer e o = answer_in e o table

-- What `to_v4` makes of a status.
abbrev folded : Op → Status → Status
folded o s = if error_allowed o s then s else Status.io

-- A row says what the code answers.
abbrev IsRow : Op → ℕ × Status × Who → Type 0
IsRow o (f, s, who) = folded o s ≡ (if may o who then s else Status.io)

abbrev cases_of : List (ℕ × Status × Who) → List (ℕ × Status)
cases_of [] = []
cases_of ((f, s, who) ∷ rows) = (f, s) ∷ cases_of rows

io-folded : (o : Op) → folded o Status.io ≡ Status.io
unfolding error_allowed
io-folded o = refl

in_cases-answer_in :
    (e : ℕ) (o : Op) (rows : List (ℕ × Status × Who))
    → All (IsRow o) rows
    → folded o (in_cases e (cases_of rows)) ≡ answer_in e o rows
unfolding in_cases answer_in
in_cases-answer_in e o [] h = io-folded o
in_cases-answer_in e o ((f, s, who) ∷ rows) (here, later) = elim (Bool-cases (e == f)) [
  | inl q ↦ rw q here
  | inr q ↦ rw q (in_cases-answer_in e o rows later)
]

infixr 20 ◌&◌
◌&◌ : {A B : Type 0} → A → B → A × B
a & b = (a, b)

table-IsRow : (o : Op) → All (IsRow o) table
unfolding error_allowed may
table-IsRow Op.access =
    refl & refl & refl & refl & refl & refl & refl & refl & refl & refl & refl & refl & refl & refl
    & refl & refl & refl & refl & refl & refl & refl & refl & tt
table-IsRow _ =
    refl & refl & refl & refl & refl & refl & refl & refl & refl & refl & refl & refl & refl & refl
    & refl & refl & refl & refl & refl & refl & refl & refl & tt

pub to_v4-answer : (e : ℕ) (o : Op) → to_v4 e o ≡ answer e o
unfolding to_v4 raw_mapping in_cases answer
to_v4-answer e o = in_cases-answer_in e o table (table-IsRow o)
