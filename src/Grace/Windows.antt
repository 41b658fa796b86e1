-- ===== src/Grace/Windows.antt =====
-- Grace in src/state/state_mgr.cpp: arm_grace, end_grace, window_live, in_grace,
-- grace_remaining_seconds, in_stable_list and note_reclaimed. Each holds the mutex of the windows.
-- A time is in nanoseconds of the steady clock, which each call reads once.
use lightnfs.Prelude.{
  ℕ, ◌+◌, ◌-◌, ◌*◌, ◌/◌, ◌^◌, max, Bool, true, false, ◌&&◌, ◌||◌, not, Option, none, some, List, [],
  ◌∷◌, leb, ◌==◌, if◌then◌else◌,
}
use lightnfs.Maps.{bytes, number, find, put, has, add, without}
use lightnfs.Config.{Config}

-- `pending` are the owners that are still to reclaim, `listed` the list that armed the window.
pub record GraceWindow : Type 0 where
  pub pending : List (List ℕ)
  pub listed : List (List ℕ)
  pub deadline : ℕ
  pub active : Bool

-- The windows by file system, where 0 stands for all, and `grace_any_`.
pub record Grace : Type 0 where
  pub windows : List (ℕ × GraceWindow)
  pub any : Bool

abbrev pub no_grace : Grace
no_grace = record { windows = []; any = false }

abbrev pub is_nil {ℓ} : {A : Type ℓ} → List A → Bool
is_nil [] = true
is_nil (x ∷ xs) = false

abbrev pub no_window : GraceWindow
no_window = record { pending = []; listed = []; deadline = 0; active = false }

-- `grace_[fsid]`, which makes the entry.
abbrev pub window_or_new : Option GraceWindow → GraceWindow
window_or_new none = no_window
window_or_new (some w) = w

unfoldable pub enlist : List (List ℕ) → GraceWindow → GraceWindow
unfolding add
enlist [] w = w
enlist (owner ∷ owners) w = enlist owners (
    if is_nil owner
    then w
    else record w { listed = add owner w.listed; pending = add owner w.pending })

unfoldable pub grace_time : Config → ℕ
grace_time cfg = (if cfg.grace_seconds == 0 then cfg.lease_seconds else cfg.grace_seconds) * 10 ^ 9

unfoldable pub arm_window : Config → List (List ℕ) → ℕ → GraceWindow → GraceWindow
unfolding enlist grace_time
arm_window cfg owners now w =
    let w' = enlist owners w in
    if is_nil w'.pending then w' else record w' { deadline = now + grace_time cfg; active = true }

-- `owners` is what the stable store gives for the file system.
unfoldable pub arm_grace : Config → ℕ → List (List ℕ) → ℕ → Grace → Grace
unfolding find put arm_window
arm_grace cfg fsid owners now g =
    let w = arm_window cfg owners now (window_or_new (find fsid g.windows)) in
    record { windows = put fsid w g.windows; any = not (is_nil w.pending) || g.any }

unfoldable pub end_windows : ℕ → List (ℕ × GraceWindow) → Bool × List (ℕ × GraceWindow)
end_windows fsid [] = (false, [])
end_windows fsid ((id, w) ∷ ws) =
    let (was, ws') = end_windows fsid ws in
    if not (fsid == 0) && not (id == fsid)
    then (was, (id, w) ∷ ws')
    else (w.active || was, (id, record w { pending = []; active = false }) ∷ ws')

unfoldable pub end_grace : ℕ → Grace → Bool × Grace
unfolding end_windows
end_grace fsid g =
    let (was, ws) = end_windows fsid g.windows in
    (was, record { windows = ws; any = if fsid == 0 then false else g.any })

-- Whether the window is live, and the window after the look.
unfoldable pub window_live : ℕ → GraceWindow → Bool × GraceWindow
window_live now w =
    if not w.active
    then (false, w)
    else if is_nil w.pending || leb w.deadline now
    then (false, record w { active = false })
    else (true, w)

-- Whether a window is live, whether one is for the file system, and the windows after the look.
unfoldable pub look : ℕ → ℕ → List (ℕ × GraceWindow) → Bool × Bool × List (ℕ × GraceWindow)
unfolding window_live
look now fsid [] = (false, false, [])
look now fsid ((id, w) ∷ ws) =
    let (any, hit, ws') = look now fsid ws in
    let (live, w') = window_live now w in
    (live || any, (live && (id == 0 || id == fsid)) || hit, (id, w') ∷ ws')

-- `in_grace()`.
unfoldable pub in_any_grace : ℕ → Grace → Bool × Grace
unfolding look
in_any_grace now g =
    if not g.any
    then (false, g)
    else let (any, hit, ws) = look now 0 g.windows in
      (any, record { windows = ws; any = if any then g.any else false })

-- `in_grace(fsid)`.
unfoldable pub in_grace : ℕ → ℕ → Grace → Bool × Grace
unfolding look
in_grace now fsid g =
    if not g.any
    then (false, g)
    else let (any, hit, ws) = look now fsid g.windows in
      (hit, record { windows = ws; any = if any then g.any else false })

unfoldable pub longest : ℕ → ℕ → List (ℕ × GraceWindow) → ℕ
longest now fsid [] = 0
longest now fsid ((id, w) ∷ ws) =
    let rest = longest now fsid ws in
    if not w.active || (not (id == 0) && not (id == fsid))
    then rest
    else max ((w.deadline - now) / 10 ^ 9) rest

-- `grace_remaining_seconds(fsid)`.
unfoldable pub grace_remaining_seconds : ℕ → ℕ → Grace → ℕ × Grace
unfolding in_grace longest
grace_remaining_seconds now fsid g =
    let (live, g') = in_grace now fsid g in
    (if not live then 0 else longest now fsid g'.windows, g')

abbrev pub lists : List ℕ → Option GraceWindow → Bool
lists owner none = false
lists owner (some w) = has owner w.listed

-- `in_stable_list(fsid, owner_id)`.
unfoldable pub in_stable_list : ℕ → List ℕ → Grace → Bool
unfolding find has
in_stable_list fsid owner g = lists owner (find 0 g.windows) || lists owner (find fsid g.windows)

unfoldable pub reclaimed_in : List ℕ → GraceWindow → GraceWindow
unfolding without
reclaimed_in owner w =
    let w' = record w { pending = without owner w.pending } in
    if is_nil w'.pending && w'.active then record w' { active = false } else w'

unfoldable pub reclaimed_all : List ℕ → List (ℕ × GraceWindow) → List (ℕ × GraceWindow)
unfolding reclaimed_in
reclaimed_all owner [] = []
reclaimed_all owner ((id, w) ∷ ws) = (id, reclaimed_in owner w) ∷ reclaimed_all owner ws

unfoldable pub note_reclaimed : List ℕ → Grace → Grace
unfolding reclaimed_all
note_reclaimed owner g = record g { windows = reclaimed_all owner g.windows }
