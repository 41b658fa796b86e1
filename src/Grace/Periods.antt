-- ===== src/Grace/Periods.antt =====
-- What grace promises: a period of an export ends at its deadline, when its last listed owner has
-- reclaimed, or when the operator ends it. There is no flag here, and a look changes nothing.
use lightnfs.Prelude.{
  ℕ, ◌+◌, ◌-◌, ◌/◌, ◌^◌, max, Bool, false, ◌&&◌, ◌||◌, true, Option, none, some, List, [], ◌∷◌, ltb,
  ◌==◌, if◌then◌else◌,
}
use lightnfs.Maps.{bytes, number, find, put, has, without}
use lightnfs.Config.{Config}
use lightnfs.Grace.Windows.{
  Grace, is_nil, no_window, enlist, grace_time, arm_grace, end_grace, in_any_grace, in_grace,
  grace_remaining_seconds, in_stable_list, note_reclaimed,
}

-- `until` is the deadline of a period that is open.
pub record Period : Type 0 where
  pub pending : List (List ℕ)
  pub listed : List (List ℕ)
  pub until : Option ℕ

abbrev pub no_period : Period
no_period = record { pending = []; listed = []; until = none }

abbrev pub period_or_new : Option Period → Period
period_or_new none = no_period
period_or_new (some p) = p

unfoldable pub open_period : Config → List (List ℕ) → ℕ → Period → Period
unfolding enlist
open_period cfg owners now p =
    let w = enlist owners (record no_window { pending = p.pending; listed = p.listed }) in
    record {
      pending = w.pending;
      listed = w.listed;
      until = if is_nil w.pending then p.until else some (now + grace_time cfg);
    }

abbrev pub concerns : ℕ → ℕ → Bool
concerns fsid id = id == 0 || id == fsid

abbrev pub before : ℕ → Option ℕ → Bool
before now none = false
before now (some d) = ltb now d

abbrev pub left : ℕ → Option ℕ → ℕ
left now none = 0
left now (some d) = (d - now) / 10 ^ 9

-- Some period that concerns the file system is open.
unfoldable pub is_open : ℕ → ℕ → List (ℕ × Period) → Bool
is_open now fsid [] = false
is_open now fsid ((id, p) ∷ ps) =
    let rest = is_open now fsid ps in (before now p.until && concerns fsid id) || rest

unfoldable pub any_open : ℕ → List (ℕ × Period) → Bool
any_open now [] = false
any_open now ((id, p) ∷ ps) = let rest = any_open now ps in before now p.until || rest

-- The seconds until the last of them ends.
unfoldable pub seconds_left : ℕ → ℕ → List (ℕ × Period) → ℕ
seconds_left now fsid [] = 0
seconds_left now fsid ((id, p) ∷ ps) =
    let rest = seconds_left now fsid ps in
    if concerns fsid id then max (left now p.until) rest else rest

abbrev pub names : List ℕ → Option Period → Bool
names owner none = false
names owner (some p) = has owner p.listed

unfoldable pub close_periods : ℕ → List (ℕ × Period) → List (ℕ × Period)
close_periods fsid [] = []
close_periods fsid ((id, p) ∷ ps) =
    let rest = close_periods fsid ps in
    (id, if fsid == 0 || id == fsid then record p { pending = []; until = none } else p) ∷ rest

-- Some period that the operator ends is open.
unfoldable pub ends_open : ℕ → ℕ → List (ℕ × Period) → Bool
ends_open now fsid [] = false
ends_open now fsid ((id, p) ∷ ps) =
    let rest = ends_open now fsid ps in ((fsid == 0 || id == fsid) && before now p.until) || rest

abbrev pub has_begun : Option ℕ → Bool
has_begun none = false
has_begun (some d) = true

-- Some period that the operator ends has begun, and neither its owners nor the operator ended it.
unfoldable pub ends_begun : ℕ → List (ℕ × Period) → Bool
ends_begun fsid [] = false
ends_begun fsid ((id, p) ∷ ps) =
    let rest = ends_begun fsid ps in ((fsid == 0 || id == fsid) && has_begun p.until) || rest

unfoldable pub done_in : List ℕ → Period → Period
unfolding without
done_in owner p =
    let pending = without owner p.pending in
    record p { pending = pending; until = if is_nil pending then none else p.until }

unfoldable pub done_all : List ℕ → List (ℕ × Period) → List (ℕ × Period)
unfolding done_in
done_all owner [] = []
done_all owner ((id, p) ∷ ps) = (id, done_in owner p) ∷ done_all owner ps

-- The calls on grace, and what they answer. `between` is a promise: `ended true` if the first holds,
-- and `ended false` unless the second does.
pub data Call : Type 0 where
  arm : ℕ → List (List ℕ) → Call
  reclaimed : List ℕ → Call
  end : ℕ → Call
  ask_any : Call
  ask : ℕ → Call
  remaining : ℕ → Call
  is_listed : ℕ → List ℕ → Call

pub data Answer : Type 0 where
  nothing : Answer
  flag : Bool → Answer
  ended : Bool → Answer
  between : Bool → Bool → Answer
  seconds : ℕ → Answer

-- The code.
unfoldable pub step : Config → ℕ → Call → Grace → Answer × Grace
unfolding arm_grace end_grace in_any_grace in_grace grace_remaining_seconds in_stable_list
    note_reclaimed
step cfg now (arm fsid owners) g = (nothing, arm_grace cfg fsid owners now g)
step cfg now (reclaimed owner) g = (nothing, note_reclaimed owner g)
step cfg now (end fsid) g = let (was, g') = end_grace fsid g in (ended was, g')
step cfg now ask_any g = let (any, g') = in_any_grace now g in (flag any, g')
step cfg now (ask fsid) g = let (live, g') = in_grace now fsid g in (flag live, g')
step cfg now (remaining fsid) g =
    let (secs, g') = grace_remaining_seconds now fsid g in (seconds secs, g')
step cfg now (is_listed fsid owner) g = (flag (in_stable_list fsid owner g), g)

-- The promise.
unfoldable pub promise : Config → ℕ → Call → List (ℕ × Period) → Answer × List (ℕ × Period)
unfolding find put open_period done_all close_periods ends_open ends_begun is_open any_open
    seconds_left has
promise cfg now (arm fsid owners) ps =
    (nothing, put fsid (open_period cfg owners now (period_or_new (find fsid ps))) ps)
promise cfg now (reclaimed owner) ps = (nothing, done_all owner ps)
promise cfg now (end fsid) ps =
    (between (ends_open now fsid ps) (ends_begun fsid ps), close_periods fsid ps)
promise cfg now ask_any ps = (flag (any_open now ps), ps)
promise cfg now (ask fsid) ps = (flag (is_open now fsid ps), ps)
promise cfg now (remaining fsid) ps = (seconds (seconds_left now fsid ps), ps)
promise cfg now (is_listed fsid owner) ps =
    (flag (names owner (find 0 ps) || names owner (find fsid ps)), ps)
