-- ===== src/Errmap/Legal.antt =====
-- What a client may count on of the error mapping of src/core/errmap.cpp.
use lightnfs.Prelude.{
  ℕ, ◌≡◌, refl, Bool, true, false, ◌||◌, ◌&&◌, not, List, [], ◌∷◌, if◌then◌else◌,
}
use lightnfs.Nfs3.Status as Status3
use lightnfs.Nfs3.Proc.{Proc}
use lightnfs.Nfs3.Proc as Proc3
use lightnfs.Nfs4.Status as Status4
use lightnfs.Nfs4.Op.{Op}
use lightnfs.Errmap.Errno
use lightnfs.Errmap.V3
use lightnfs.Errmap.V4
use lightnfs.Errmap.ByError3
use lightnfs.Errmap.ByError4

-- Whether a status is OK.
is_ok3 : Status3.Status → Bool
unfolding Status3.◌≟◌
is_ok3 s = Status3.◌≟◌ s Status3.Status.ok

no_ok3 : List (ℕ × Status3.Status) → Bool
unfolding is_ok3
no_ok3 [] = true
no_ok3 ((e, s) ∷ cases) = not (is_ok3 s) && no_ok3 cases

-- Whether a status is OK.
is_ok4 : Status4.Status → Bool
unfolding Status4.◌≟◌
is_ok4 s = Status4.◌≟◌ s Status4.Status.ok

no_ok4 : List (ℕ × Status4.Status) → Bool
unfolding is_ok4
no_ok4 [] = true
no_ok4 ((e, s) ∷ cases) = not (is_ok4 s) && no_ok4 cases

-- The procedures that may answer JUKEBOX, beside NULL.
abbrev pub retries : Proc → Bool
retries Proc.read = true
retries Proc.write = true
retries Proc.setattr = true
retries Proc.create = true
retries Proc.remove = true
retries Proc.rename = true
retries _ = false

-- A transient error of the backend reaches an NFSv3 client as JUKEBOX on NULL, READ, WRITE, SETATTR,
-- CREATE, REMOVE and RENAME; on every other procedure it becomes a hard IO error.
pub to_v3-jukebox :
    (p : Proc)
    → V3.to_v3 Errno.jukebox p
      ≡ (if retries p || Proc3.◌≟◌ p Proc.null then Status3.Status.jukebox else Status3.Status.io)
unfolding V3.to_v3 V3.raw_mapping V3.error_allowed
to_v3-jukebox Proc.null = refl
to_v3-jukebox _ = refl

-- On NFSv4 a transient error reaches the client as DELAY and an export served elsewhere as MOVED,
-- whatever the operation.
pub to_v4_transient :
    (o : Op)
    → (V4.to_v4 Errno.jukebox o ≡ Status4.Status.delay)
      × (V4.to_v4 Errno.moved o ≡ Status4.Status.moved)
unfolding V4.to_v4 V4.raw_mapping V4.error_allowed
to_v4_transient o = (refl, refl)
