-- ===== src/Grace/Ends.antt =====
-- How grace ends in src/state/state_mgr.cpp: at its deadlines, or early.
use lightnfs.Prelude.{
  ℕ, ◌+◌, ◌≤◌, ◌≡◌, refl, true, false, ◌&&◌, not, List, [], ◌∷◌, arith, Bool-cases, inl, inr, ◌==◌,
  bytes_eq_refl,
}
use lightnfs.Maps.{number, bytes, find, put, has, has-without}
use lightnfs.Config.{Config}
use lightnfs.Grace.Windows.{
  Grace, GraceWindow, no_grace, window_or_new, grace_time, arm_window, arm_grace, end_windows,
  end_grace, window_live, look, in_any_grace, in_grace, grace_remaining_seconds, reclaimed_in,
  reclaimed_all, note_reclaimed,
}
use lightnfs.Grace.Periods.{Call, arm, reclaimed, end, ask_any, ask, remaining, is_listed, step}
use lightnfs.Grace.Calls.{enlist-rest}

-- The windows after any calls.
unfoldable pub run : Config → List (ℕ × Call) → Grace → Grace
unfolding step
run cfg [] g = g
run cfg ((now, c) ∷ cs) g = run cfg cs (step cfg now c g).1

-- Every call that arms a window is made at `t` or before.
abbrev pub IsArmedBy : ℕ → List (ℕ × Call) → Type 0
IsArmedBy t [] = Unit
IsArmedBy t ((now, arm fsid owners) ∷ cs) = (now ≤ t) × IsArmedBy t cs
IsArmedBy t ((now, c) ∷ cs) = IsArmedBy t cs

-- An active window has a deadline of `d` at most.
abbrev IsDue : ℕ → GraceWindow → Type 0
IsDue d w = w.active ≡ true → w.deadline ≤ d

abbrev AllDue : ℕ → List (ℕ × GraceWindow) → Type 0
AllDue d [] = Unit
AllDue d ((i, w) ∷ ws) = IsDue d w × AllDue d ws

arm_window-IsDue :
    (d : ℕ) (cfg : Config) (owners : List (List ℕ)) (now : ℕ) (w : GraceWindow)
    → now + grace_time cfg ≤ d
    → IsDue d w
    → IsDue d (arm_window cfg owners now w)
unfolding arm_window
arm_window-IsDue d cfg owners now w h k = ground (arith, enlist-rest owners w)

put-AllDue :
    (d i : ℕ) (w : GraceWindow) (ws : List (ℕ × GraceWindow))
    → IsDue d w
    → AllDue d ws
    → AllDue d (put i w ws)
unfolding put
put-AllDue d i w [] a h = (a, tt)
put-AllDue d i w ((j, v) ∷ ws) a h = elim (Bool-cases (j == i)) [
  | inl q ↦ rw q (a, h.1)
  | inr q ↦ rw q (h.0, put-AllDue d i w ws a h.1)
]

find-IsDue :
    (d i : ℕ) (ws : List (ℕ × GraceWindow)) → AllDue d ws → IsDue d (window_or_new (find i ws))
unfolding find
find-IsDue d i [] h = λ q. cc
find-IsDue d i ((j, v) ∷ ws) h = elim (Bool-cases (j == i)) [
  | inl q ↦ rw q h.0
  | inr q ↦ rw q (find-IsDue d i ws h.1)
]

end_windows-AllDue :
    (d fsid : ℕ) (ws : List (ℕ × GraceWindow)) → AllDue d ws → AllDue d (end_windows fsid ws).1
unfolding end_windows
end_windows-AllDue d fsid [] h = tt
end_windows-AllDue d fsid ((i, w) ∷ ws) h =
    let rest = end_windows-AllDue d fsid ws h.1 in
    elim (Bool-cases (not (fsid == 0) && not (i == fsid))) [
      | inl q ↦ rw q (h.0, rest)
      | inr q ↦ rw q ((λ a. absurd (cc)), rest)
    ]

window_live-IsDue : (d t : ℕ) (w : GraceWindow) → IsDue d w → IsDue d (window_live t w).1
unfolding window_live
window_live-IsDue d t w h = ground arith

look-AllDue :
    (d t fsid : ℕ) (ws : List (ℕ × GraceWindow)) → AllDue d ws → AllDue d (look t fsid ws).2
unfolding look
look-AllDue d t fsid [] h = tt
look-AllDue d t fsid ((i, w) ∷ ws) h = (window_live-IsDue d t w h.0, look-AllDue d t fsid ws h.1)

in_grace-AllDue :
    (d t fsid : ℕ) (g : Grace) → AllDue d g.windows → AllDue d (in_grace t fsid g).1.windows
unfolding in_grace
in_grace-AllDue d t fsid g h = elim (Bool-cases g.any) [
  | inl q ↦ rw q (look-AllDue d t fsid g.windows h)
  | inr q ↦ rw q h
]

in_any_grace-AllDue :
    (d t : ℕ) (g : Grace) → AllDue d g.windows → AllDue d (in_any_grace t g).1.windows
unfolding in_any_grace
in_any_grace-AllDue d t g h = elim (Bool-cases g.any) [
  | inl q ↦ rw q (look-AllDue d t 0 g.windows h)
  | inr q ↦ rw q h
]

reclaimed_in-IsDue :
    (d : ℕ) (owner : List ℕ) (w : GraceWindow) → IsDue d w → IsDue d (reclaimed_in owner w)
unfolding reclaimed_in
reclaimed_in-IsDue d owner w h = ground arith

reclaimed_all-AllDue :
    (d : ℕ) (owner : List ℕ) (ws : List (ℕ × GraceWindow))
    → AllDue d ws
    → AllDue d (reclaimed_all owner ws)
unfolding reclaimed_all
reclaimed_all-AllDue d owner [] h = tt
reclaimed_all-AllDue d owner ((i, w) ∷ ws) h =
    (reclaimed_in-IsDue d owner w h.0, reclaimed_all-AllDue d owner ws h.1)

run-AllDue :
    (cfg : Config) (t : ℕ) (cs : List (ℕ × Call)) (g : Grace)
    → IsArmedBy t cs
    → AllDue (t + grace_time cfg) g.windows
    → AllDue (t + grace_time cfg) (run cfg cs g).windows
unfolding run step arm_grace end_grace note_reclaimed grace_remaining_seconds
run-AllDue cfg t [] g a h = h
run-AllDue cfg t ((now, arm fsid owners) ∷ cs) g a h =
    run-AllDue cfg t cs (arm_grace cfg fsid owners now g) a.1 (
      put-AllDue _ fsid _ g.windows
        (arm_window-IsDue _ cfg owners now _ (omega (arith, a.0)) (find-IsDue _ fsid g.windows h))
        h)
run-AllDue cfg t ((now, reclaimed owner) ∷ cs) g a h =
    run-AllDue cfg t cs (note_reclaimed owner g) a (reclaimed_all-AllDue _ owner g.windows h)
run-AllDue cfg t ((now, end fsid) ∷ cs) g a h =
    run-AllDue cfg t cs (end_grace fsid g).1 a (end_windows-AllDue _ fsid g.windows h)
run-AllDue cfg t ((now, ask_any) ∷ cs) g a h =
    run-AllDue cfg t cs (in_any_grace now g).1 a (in_any_grace-AllDue _ now g h)
run-AllDue cfg t ((now, ask fsid) ∷ cs) g a h =
    run-AllDue cfg t cs (in_grace now fsid g).1 a (in_grace-AllDue _ now fsid g h)
run-AllDue cfg t ((now, remaining fsid) ∷ cs) g a h =
    run-AllDue cfg t cs (in_grace now fsid g).1 a (in_grace-AllDue _ now fsid g h)
run-AllDue cfg t ((now, is_listed fsid owner) ∷ cs) g a h = run-AllDue cfg t cs g a h

-- No window is live.
window_live-over : (d t : ℕ) (w : GraceWindow) → d ≤ t → IsDue d w → (window_live t w).0 ≡ false
unfolding window_live
window_live-over d t w h k = ground arith

look-over :
    (d t fsid : ℕ) (ws : List (ℕ × GraceWindow))
    → d ≤ t
    → AllDue d ws
    → ((look t fsid ws).0 ≡ false) × ((look t fsid ws).1 ≡ false)
unfolding look
look-over d t fsid [] h k = (refl, refl)
look-over d t fsid ((i, w) ∷ ws) h k =
    let rest = look-over d t fsid ws h k.1 in
    let over = window_live-over d t w h k.0 in (rw (over, rest.0), rw (over, rest.1))

in_grace-over :
    (t fsid : ℕ) (g : Grace) → (look t fsid g.windows).1 ≡ false → (in_grace t fsid g).0 ≡ false
unfolding in_grace
in_grace-over t fsid g h = ground arith

in_any_grace-over :
    (t : ℕ) (g : Grace) → (look t 0 g.windows).0 ≡ false → (in_any_grace t g).0 ≡ false
unfolding in_any_grace
in_any_grace-over t g h = ground arith

-- Grace ends by itself. Whatever calls are made, if none arms a window after `t`, then from the
-- grace time after `t` on no file system is in grace, and none at all.
pub run-in_grace :
    (cfg : Config) (cs : List (ℕ × Call)) (t now fsid : ℕ)
    → IsArmedBy t cs
    → t + grace_time cfg ≤ now
    → ((in_grace now fsid (run cfg cs no_grace)).0 ≡ false)
      × ((in_any_grace now (run cfg cs no_grace)).0 ≡ false)
run-in_grace cfg cs t now fsid a h =
    let due = run-AllDue cfg t cs no_grace a tt in
    (
      in_grace-over now fsid _ (look-over _ now fsid _ h due).1,
      in_any_grace-over now _ (look-over _ now 0 _ h due).0,
    )

-- The owners finish their reclaims one after another.
unfoldable pub all_reclaimed : List (List ℕ) → Grace → Grace
unfolding note_reclaimed
all_reclaimed [] g = g
all_reclaimed (owner ∷ owners) g = all_reclaimed owners (note_reclaimed owner g)

-- Each owner that some window waits for is among `owners`.
abbrev pub AllCover : List (List ℕ) → List (ℕ × GraceWindow) → Type 0
AllCover owners [] = Unit
AllCover owners ((i, w) ∷ ws) =
    ((owner : List ℕ) → has owner w.pending ≡ true → has owner owners ≡ true) × AllCover owners ws

reclaimed_in-covers :
    (owner : List ℕ) (owners : List (List ℕ)) (w : GraceWindow)
    → ((o : List ℕ) → has o w.pending ≡ true → has o (owner ∷ owners) ≡ true)
    → (o : List ℕ) → has o (reclaimed_in owner w).pending ≡ true
    → has o owners ≡ true
unfolding has reclaimed_in
reclaimed_in-covers owner owners w h o k = ground (arith, h o, has-without o owner w.pending)

reclaimed_all-AllCover :
    (owner : List ℕ) (owners : List (List ℕ)) (ws : List (ℕ × GraceWindow))
    → AllCover (owner ∷ owners) ws
    → AllCover owners (reclaimed_all owner ws)
unfolding reclaimed_all
reclaimed_all-AllCover owner owners [] h = tt
reclaimed_all-AllCover owner owners ((i, w) ∷ ws) h =
    (reclaimed_in-covers owner owners w h.0, reclaimed_all-AllCover owner owners ws h.1)

covered_by_none : (o : List ℕ) (s : List (List ℕ)) → (has o (o ∷ s) ≡ true → has o [] ≡ true) → ⊥
unfolding has
covered_by_none o s h = ground (arith, bytes_eq_refl o)

window_live-done :
    (t : ℕ) (w : GraceWindow)
    → ((o : List ℕ) → has o w.pending ≡ true → has o [] ≡ true)
    → (window_live t w).0 ≡ false
unfolding window_live
window_live-done t w h = done w.pending h
  where
    done :
        (pending : List (List ℕ))
        → ((o : List ℕ) → has o pending ≡ true → has o [] ≡ true)
        → (window_live t (record w { pending = pending })).0 ≡ false
    done [] h = ground arith
    done (o ∷ pending) h = absurd (covered_by_none o pending (h o))

look-done :
    (t fsid : ℕ) (ws : List (ℕ × GraceWindow))
    → AllCover [] ws
    → ((look t fsid ws).0 ≡ false) × ((look t fsid ws).1 ≡ false)
unfolding look
look-done t fsid [] k = (refl, refl)
look-done t fsid ((i, w) ∷ ws) k =
    let rest = look-done t fsid ws k.1 in
    let over = window_live-done t w k.0 in (rw (over, rest.0), rw (over, rest.1))

-- Grace ends early. Once every owner that some window waits for has sent RECLAIM_COMPLETE, in any
-- order and among any others, no file system is in grace, at any time.
pub all_reclaimed-in_grace :
    (owners : List (List ℕ)) (g : Grace) (now fsid : ℕ)
    → AllCover owners g.windows
    → (in_grace now fsid (all_reclaimed owners g)).0 ≡ false
unfolding all_reclaimed note_reclaimed
all_reclaimed-in_grace [] g now fsid h = in_grace-over now fsid g (look-done now fsid g.windows h).1
all_reclaimed-in_grace (owner ∷ owners) g now fsid h =
    all_reclaimed-in_grace owners _ now fsid (reclaimed_all-AllCover owner owners g.windows h)
