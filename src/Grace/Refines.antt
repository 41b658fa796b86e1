-- ===== src/Grace/Refines.antt =====
-- Any calls on grace, in src/state/state_mgr.cpp and as promised.
use lightnfs.Prelude.{
  ℕ, ◌≤◌, ◌≡◌, refl, sym, ap, Bool, true, false, List, [], ◌∷◌, arith, if◌then◌else◌, Bool-cases,
  inl, inr, ◌==◌,
}
use lightnfs.Maps.{number, bytes, find, has}
use lightnfs.Config.{Config}
use lightnfs.Grace.Windows.{
  Grace, GraceWindow, no_grace, in_any_grace, in_grace, grace_remaining_seconds, in_stable_list,
  lists,
}
use lightnfs.Grace.Periods.{
  Period, Call, Answer, arm, reclaimed, end, ask_any, ask, remaining, is_listed, flag, ended,
  between, seconds, step, promise, is_open, any_open, seconds_left, names,
}
use lightnfs.Grace.Same.{
  Same, Same-later, look-IsLooked, AllOff-is_open, longest-seconds_left, is_open-seconds_left,
}
use lightnfs.Grace.Calls.{
  Stands, arm_grace-Stands, end_grace-open, end_grace-begun, end_grace-Stands,
  note_reclaimed-Stands,
}

-- The calls with the times at which they are made, and their answers.
unfoldable pub answers : Config → List (ℕ × Call) → Grace → List Answer
unfolding step
answers cfg [] g = []
answers cfg ((now, c) ∷ cs) g = let (a, g') = step cfg now c g in a ∷ answers cfg cs g'

unfoldable pub promised : Config → List (ℕ × Call) → List (ℕ × Period) → List Answer
unfolding promise
promised cfg [] ps = []
promised cfg ((now, c) ∷ cs) ps = let (a, ps') = promise cfg now c ps in a ∷ promised cfg cs ps'

-- An answer keeps a promise if it is the same, or if it stands between the two.
abbrev pub Fits : Answer → Answer → Type 0
Fits (between low high) a = (low ≡ true → a ≡ ended true) × (high ≡ false → a ≡ ended false)
Fits p a = a ≡ p

abbrev pub AllFit : List Answer → List Answer → Type 0
AllFit [] [] = Unit
AllFit [] (a ∷ as') = ⊥
AllFit (p ∷ ps) [] = ⊥
AllFit (p ∷ ps) (a ∷ as') = Fits p a × AllFit ps as'

-- Time does not run back.
abbrev pub IsTimed : ℕ → List (ℕ × Call) → Type 0
IsTimed t [] = Unit
IsTimed t ((now, c) ∷ cs) = (t ≤ now) × IsTimed now cs

any_false : (b : Bool) → (if b then true else false) ≡ false → b ≡ false
any_false b h = ground arith

in_grace-Stands :
    (t fsid : ℕ) (g : Grace) (ps : List (ℕ × Period))
    → Stands t g ps
    → ((in_grace t fsid g).0 ≡ is_open t fsid ps) × Stands t (in_grace t fsid g).1 ps
unfolding in_grace
in_grace-Stands t fsid g ps s = elim (Bool-cases g.any) [
  | inl q ↦
      let looked = look-IsLooked t fsid g.windows ps s.same in
      rw q (looked.hit, record { same = looked.same; off = λ h. looked.off (any_false _ h) })
  | inr q ↦ rw q (
    sym (AllOff-is_open t fsid g.windows ps s.same (s.off q)).1,
    record { same = s.same; off = λ h. s.off q },
  )
]

in_any_grace-Stands :
    (t : ℕ) (g : Grace) (ps : List (ℕ × Period))
    → Stands t g ps
    → ((in_any_grace t g).0 ≡ any_open t ps) × Stands t (in_any_grace t g).1 ps
unfolding in_any_grace
in_any_grace-Stands t g ps s = elim (Bool-cases g.any) [
  | inl q ↦
      let looked = look-IsLooked t 0 g.windows ps s.same in
      rw q (looked.any, record { same = looked.same; off = λ h. looked.off (any_false _ h) })
  | inr q ↦ rw q (
    sym (AllOff-is_open t 0 g.windows ps s.same (s.off q)).0,
    record { same = s.same; off = λ h. s.off q },
  )
]

grace_remaining_seconds-Stands :
    (t fsid : ℕ) (g : Grace) (ps : List (ℕ × Period))
    → Stands t g ps
    → ((grace_remaining_seconds t fsid g).0 ≡ seconds_left t fsid ps)
      × Stands t (grace_remaining_seconds t fsid g).1 ps
unfolding grace_remaining_seconds
grace_remaining_seconds-Stands t fsid g ps s =
    let (live, s') = in_grace-Stands t fsid g ps s in
    elim (Bool-cases (is_open t fsid ps)) [
      | inl q ↦ rw (live, q) (longest-seconds_left t fsid _ ps s'.same, s')
      | inr q ↦ rw (live, q) (sym (is_open-seconds_left t fsid ps q), s')
    ]

find-lists :
    (t i : ℕ) (owner : List ℕ) (ws : List (ℕ × GraceWindow)) (ps : List (ℕ × Period))
    → Same t ws ps
    → lists owner (find i ws) ≡ names owner (find i ps)
unfolding find
find-lists t i owner [] [] s = refl
find-lists t i owner [] (p ∷ ps) s = absurd s
find-lists t i owner (w ∷ ws) [] s = absurd s
find-lists t i owner ((j, w) ∷ ws) ((h, p) ∷ ps) (e, (a, b, k), s) = elim (Bool-cases (h == i)) [
  | inl q ↦ rw (e, q) (ap (has owner) b)
  | inr q ↦ rw (e, q) (find-lists t i owner ws ps s)
]

-- One call.
step-Stands :
    (cfg : Config) (t : ℕ) (c : Call) (g : Grace) (ps : List (ℕ × Period))
    → Stands t g ps
    → Fits (promise cfg t c ps).0 (step cfg t c g).0
      × Stands t (step cfg t c g).1 (promise cfg t c ps).1
unfolding step promise in_stable_list
step-Stands cfg t (arm fsid owners) g ps s = (refl, arm_grace-Stands t cfg fsid owners t g ps s)
step-Stands cfg t (reclaimed owner) g ps s = (refl, note_reclaimed-Stands t owner g ps s)
step-Stands cfg t (end fsid) g ps s = (
  (λ h. ap ended (end_grace-open t fsid g ps s h), λ h. ap ended (end_grace-begun t fsid g ps s h)),
  end_grace-Stands t fsid g ps s,
)
step-Stands cfg t ask_any g ps s = let (a, s') = in_any_grace-Stands t g ps s in (ap flag a, s')
step-Stands cfg t (ask fsid) g ps s = let (a, s') = in_grace-Stands t fsid g ps s in (ap flag a, s')
step-Stands cfg t (remaining fsid) g ps s =
    let (a, s') = grace_remaining_seconds-Stands t fsid g ps s in (ap seconds a, s')
step-Stands cfg t (is_listed fsid owner) g ps s =
    (rw (find-lists t 0 owner g.windows ps s.same, find-lists t fsid owner g.windows ps s.same), s)

answers-Stands :
    (cfg : Config) (t : ℕ) (cs : List (ℕ × Call)) (g : Grace) (ps : List (ℕ × Period))
    → IsTimed t cs
    → Stands t g ps
    → AllFit (promised cfg cs ps) (answers cfg cs g)
unfolding answers promised
answers-Stands cfg t [] g ps h s = tt
answers-Stands cfg t ((now, c) ∷ cs) g ps h s =
    let s' : Stands now g ps = record {
      same = Same-later t now g.windows ps h.0 s.same;
      off = s.off;
    } in
    let (a, later) = step-Stands cfg now c g ps s' in (a, answers-Stands cfg now cs _ _ h.1 later)

-- For any calls on grace from its start, at times that do not run back, the code answers what the
-- periods promise: whether a file system, or any, is in grace, how many seconds are left, and which
-- owners may reclaim. To these questions the flags that it clears only when it looks are never seen.
-- `end_grace` says that grace was on if a period that it ends is open, and that it was not if no such
-- period has begun that neither reclaims nor an earlier `end_grace` ended; past its deadline such a
-- period may get either answer.
pub answers-promised :
    (cfg : Config) (cs : List (ℕ × Call))
    → IsTimed 0 cs
    → AllFit (promised cfg cs []) (answers cfg cs no_grace)
answers-promised cfg cs h =
    answers-Stands cfg 0 cs no_grace [] h (record { same = tt; off = λ q. tt })
