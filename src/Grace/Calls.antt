-- ===== src/Grace/Calls.antt =====
-- What arm_grace, end_grace and note_reclaimed of src/state/state_mgr.cpp do to the periods that the
-- windows stand for.
use mathlib.Core.Path.{subst}
use lightnfs.Prelude.{
  ℕ, ◌+◌, ◌≡◌, inl, inr, refl, ap, ◌∙◌, Bool, true, false, ◌&&◌, not, Option, none, some, List, [],
  ◌∷◌, arith, ◌==◌, if◌then◌else◌, Bool-cases, ==_iff,
}
use lightnfs.Maps.{number, bytes, find, put, without, add}
use lightnfs.Config.{Config}
use lightnfs.Grace.Windows.{
  GraceWindow, Grace, is_nil, no_window, window_or_new, enlist, grace_time, arm_window, end_windows,
  arm_grace, end_grace, note_reclaimed, reclaimed_in, reclaimed_all,
}
use lightnfs.Grace.Periods.{
  Period, period_or_new, open_period, close_periods, done_in, done_all, before, ends_open,
  ends_begun, has_begun,
}
use lightnfs.Grace.Same.{Keeps, Matches, Same, AllOff, or_left, or_right}

not-eq_false : (b : Bool) → not b ≡ false → b ≡ true
not-eq_false b h = ground arith

add-is_nil : (i : List ℕ) (s : List (List ℕ)) → is_nil s ≡ false → is_nil (add i s) ≡ false
unfolding add
add-is_nil i s h = ground arith

-- The lists of a window, and of a period, after owners are added.
enlist-lists :
    (owners : List (List ℕ)) (w v : GraceWindow)
    → w.pending ≡ v.pending
    → w.listed ≡ v.listed
    → ((enlist owners w).pending ≡ (enlist owners v).pending)
      × ((enlist owners w).listed ≡ (enlist owners v).listed)
unfolding enlist
enlist-lists [] w v a b = (a, b)
enlist-lists ([] ∷ owners) w v a b = enlist-lists owners w v a b
enlist-lists ((c ∷ o) ∷ owners) w v a b =
    enlist-lists owners _ _ (ap (add (c ∷ o)) a) (ap (add (c ∷ o)) b)

pub enlist-rest :
    (owners : List (List ℕ)) (w : GraceWindow)
    → ((enlist owners w).active ≡ w.active) × ((enlist owners w).deadline ≡ w.deadline)
unfolding enlist
enlist-rest [] w = (refl, refl)
enlist-rest ([] ∷ owners) w = enlist-rest owners w
enlist-rest ((c ∷ o) ∷ owners) w = enlist-rest owners _

enlist-pending :
    (owners : List (List ℕ)) (w : GraceWindow)
    → is_nil w.pending ≡ false
    → is_nil (enlist owners w).pending ≡ false
unfolding enlist
enlist-pending [] w h = h
enlist-pending ([] ∷ owners) w h = enlist-pending owners w h
enlist-pending ((c ∷ o) ∷ owners) w h = enlist-pending owners _ (add-is_nil (c ∷ o) w.pending h)

enlist-Keeps :
    (t : ℕ) (owners : List (List ℕ)) (w : GraceWindow) (o : Option ℕ)
    → Keeps t w o
    → Keeps t (enlist owners w) o
enlist-Keeps t owners w none k = (enlist-rest owners w).0 ∙ k
enlist-Keeps t owners w (some d) (a, b, c) =
    ((enlist-rest owners w).1 ∙ a, enlist-pending owners w b, rw ((enlist-rest owners w).0) c)

arm_window-Keeps :
    (t : ℕ) (cfg : Config) (owners : List (List ℕ)) (now : ℕ) (w : GraceWindow) (o : Option ℕ)
    → Keeps t w o
    → Keeps t
        (arm_window cfg owners now w)
        (if is_nil (enlist owners w).pending then o else some (now + grace_time cfg))
unfolding arm_window
arm_window-Keeps t cfg owners now w o k = elim (Bool-cases (is_nil (enlist owners w).pending)) [
  | inl q ↦ rw q (enlist-Keeps t owners w o k)
  | inr q ↦ rw q (refl, q, inl refl)
]

arm_window-lists :
    (cfg : Config) (owners : List (List ℕ)) (now : ℕ) (w : GraceWindow)
    → ((arm_window cfg owners now w).pending ≡ (enlist owners w).pending)
      × ((arm_window cfg owners now w).listed ≡ (enlist owners w).listed)
unfolding arm_window
arm_window-lists cfg owners now w = ground arith

arm_window-Matches :
    (t : ℕ) (cfg : Config) (owners : List (List ℕ)) (now : ℕ) (w : GraceWindow) (p : Period)
    → Matches t w p
    → Matches t (arm_window cfg owners now w) (open_period cfg owners now p)
unfolding open_period
arm_window-Matches t cfg owners now w p (a, b, k) =
    let v : GraceWindow = record no_window { pending = p.pending; listed = p.listed } in
    let same = enlist-lists owners w v a b in
    let armed = arm_window-lists cfg owners now w in
    (
      armed.0 ∙ same.0,
      armed.1 ∙ same.1,
      subst
          (λ l.
            Keeps t (arm_window cfg owners now w)
              (if is_nil l then p.until else some (now + grace_time cfg)))
          same.0 (arm_window-Keeps t cfg owners now w p.until k),
    )

find-Matches :
    (t i : ℕ) (ws : List (ℕ × GraceWindow)) (ps : List (ℕ × Period))
    → Same t ws ps
    → Matches t (window_or_new (find i ws)) (period_or_new (find i ps))
unfolding find
find-Matches t i [] [] s = (refl, refl, refl)
find-Matches t i [] (p ∷ ps) s = absurd s
find-Matches t i (w ∷ ws) [] s = absurd s
find-Matches t i ((j, w) ∷ ws) ((h, p) ∷ ps) (e, m, s) = elim (Bool-cases (h == i)) [
  | inl q ↦ rw (e, q) m
  | inr q ↦ rw (e, q) (find-Matches t i ws ps s)
]

put-Same :
    (t i : ℕ) (w : GraceWindow) (p : Period) (ws : List (ℕ × GraceWindow)) (ps : List (ℕ × Period))
    → Matches t w p
    → Same t ws ps
    → Same t (put i w ws) (put i p ps)
unfolding put
put-Same t i w p [] [] m s = (refl, m, tt)
put-Same t i w p [] (q ∷ ps) m s = absurd s
put-Same t i w p (v ∷ ws) [] m s = absurd s
put-Same t i w p ((j, v) ∷ ws) ((h, q) ∷ ps) m (e, k, s) = elim (Bool-cases (h == i)) [
  | inl g ↦ rw (e, g) (refl, m, s)
  | inr g ↦ rw (e, g) (refl, k, put-Same t i w p ws ps m s)
]

-- The windows of the code, with its flag, stand for the periods.
pub record Stands (t : ℕ) (g : Grace) (ps : List (ℕ × Period)) : Type 0 where
  pub same : Same t g.windows ps
  pub off : g.any ≡ false → AllOff g.windows

put-AllOff :
    (i : ℕ) (w : GraceWindow) (ws : List (ℕ × GraceWindow))
    → w.active ≡ false
    → AllOff ws
    → AllOff (put i w ws)
unfolding put
put-AllOff i w [] a h = (a, tt)
put-AllOff i w ((j, v) ∷ ws) a h = elim (Bool-cases (j == i)) [
  | inl q ↦ rw q (a, h.1)
  | inr q ↦ rw q (h.0, put-AllOff i w ws a h.1)
]

find-AllOff :
    (i : ℕ) (ws : List (ℕ × GraceWindow)) → AllOff ws → (window_or_new (find i ws)).active ≡ false
unfolding find
find-AllOff i [] h = refl
find-AllOff i ((j, v) ∷ ws) h = elim (Bool-cases (j == i)) [
  | inl q ↦ rw q h.0
  | inr q ↦ rw q (find-AllOff i ws h.1)
]

arm_window-active :
    (cfg : Config) (owners : List (List ℕ)) (now : ℕ) (w : GraceWindow)
    → is_nil (arm_window cfg owners now w).pending ≡ true
    → w.active ≡ false
    → (arm_window cfg owners now w).active ≡ false
unfolding arm_window
arm_window-active cfg owners now w h a = ground (arith, enlist-rest owners w)

pub arm_grace-Stands :
    (t : ℕ) (cfg : Config) (fsid : ℕ) (owners : List (List ℕ)) (now : ℕ) (g : Grace)
    (ps : List (ℕ × Period))
    → Stands t g ps
    → Stands t
        (arm_grace cfg fsid owners now g)
        (put fsid (open_period cfg owners now (period_or_new (find fsid ps))) ps)
unfolding arm_grace
arm_grace-Stands t cfg fsid owners now g ps s = record {
  same =
      put-Same t fsid _ _ g.windows ps
        (arm_window-Matches t cfg owners now _ _ (find-Matches t fsid g.windows ps s.same)) s.same;
  off = λ h.
      let all = s.off (or_right _ _ h) in
      put-AllOff fsid _ g.windows
        (arm_window-active cfg owners now _ (not-eq_false _ (or_left _ _ h))
          (find-AllOff fsid g.windows all))
        all;
}

end_windows-Same :
    (t fsid : ℕ) (ws : List (ℕ × GraceWindow)) (ps : List (ℕ × Period))
    → Same t ws ps
    → Same t (end_windows fsid ws).1 (close_periods fsid ps)
unfolding end_windows close_periods
end_windows-Same t fsid [] [] s = tt
end_windows-Same t fsid [] (p ∷ ps) s = absurd s
end_windows-Same t fsid (w ∷ ws) [] s = absurd s
end_windows-Same t fsid ((i, w) ∷ ws) ((j, p) ∷ ps) (e, (a, b, k), s) =
    let rest = end_windows-Same t fsid ws ps s in
    elim (Bool-cases (fsid == 0)) [
      | inl q ↦ rw (q) (e, (refl, b, refl), rest)
      | inr q ↦ elim (Bool-cases (j == fsid)) [
        | inl r ↦ rw (e, q, r) (refl, (refl, b, refl), rest)
        | inr r ↦ rw (e, q, r) (refl, (a, b, k), rest)
      ]
    ]

end_windows-AllOff :
    (fsid : ℕ) (ws : List (ℕ × GraceWindow)) → AllOff ws → AllOff (end_windows fsid ws).1
unfolding end_windows
end_windows-AllOff fsid [] h = tt
end_windows-AllOff fsid ((i, w) ∷ ws) h =
    let rest = end_windows-AllOff fsid ws h.1 in
    elim (Bool-cases (not (fsid == 0) && not (i == fsid))) [
      | inl q ↦ rw q (h.0, rest)
      | inr q ↦ rw q (refl, rest)
    ]

end_all-AllOff : (ws : List (ℕ × GraceWindow)) → AllOff (end_windows 0 ws).1
unfolding end_windows
end_all-AllOff [] = tt
end_all-AllOff ((i, w) ∷ ws) = (refl, end_all-AllOff ws)

still_active :
    (t : ℕ) (w : GraceWindow) (o : Option ℕ) → Keeps t w o → before t o ≡ true → w.active ≡ true
still_active t w none k h = cc
still_active t w (some d) (a, b, inl c) h = c
still_active t w (some d) (a, b, inr c) h = ground arith

-- Ending grace never denies that it was on.
end_windows-open :
    (t fsid : ℕ) (ws : List (ℕ × GraceWindow)) (ps : List (ℕ × Period))
    → Same t ws ps
    → ends_open t fsid ps ≡ true
    → (end_windows fsid ws).0 ≡ true
unfolding end_windows ends_open
end_windows-open t fsid [] [] s h = cc
end_windows-open t fsid [] (p ∷ ps) s h = absurd s
end_windows-open t fsid (w ∷ ws) [] s h = absurd s
end_windows-open t fsid ((i, w) ∷ ws) ((j, p) ∷ ps) (e, (a, b, k), s) h =
    rw e (ground (arith, end_windows-open t fsid ws ps s, still_active t w p.until k))

pub end_grace-open :
    (t fsid : ℕ) (g : Grace) (ps : List (ℕ × Period))
    → Stands t g ps
    → ends_open t fsid ps ≡ true
    → (end_grace fsid g).0 ≡ true
unfolding end_grace
end_grace-open t fsid g ps s h = end_windows-open t fsid g.windows ps s.same h

not_begun :
    (t : ℕ) (w : GraceWindow) (o : Option ℕ) → Keeps t w o → has_begun o ≡ false → w.active ≡ false
not_begun t w none k h = k
not_begun t w (some d) k h = cc

-- Nor does it claim that it was on when no period was left to end.
end_windows-begun :
    (t fsid : ℕ) (ws : List (ℕ × GraceWindow)) (ps : List (ℕ × Period))
    → Same t ws ps
    → ends_begun fsid ps ≡ false
    → (end_windows fsid ws).0 ≡ false
unfolding end_windows ends_begun
end_windows-begun t fsid [] [] s h = refl
end_windows-begun t fsid [] (p ∷ ps) s h = absurd s
end_windows-begun t fsid (w ∷ ws) [] s h = absurd s
end_windows-begun t fsid ((i, w) ∷ ws) ((j, p) ∷ ps) (e, (a, b, k), s) h =
    rw e (ground (arith, end_windows-begun t fsid ws ps s, not_begun t w p.until k))

pub end_grace-begun :
    (t fsid : ℕ) (g : Grace) (ps : List (ℕ × Period))
    → Stands t g ps
    → ends_begun fsid ps ≡ false
    → (end_grace fsid g).0 ≡ false
unfolding end_grace
end_grace-begun t fsid g ps s h = end_windows-begun t fsid g.windows ps s.same h

pub end_grace-Stands :
    (t fsid : ℕ) (g : Grace) (ps : List (ℕ × Period))
    → Stands t g ps
    → Stands t (end_grace fsid g).1 (close_periods fsid ps)
unfolding end_grace
end_grace-Stands t fsid g ps s = record {
  same = end_windows-Same t fsid g.windows ps s.same;
  off = λ h. elim (Bool-cases (fsid == 0)) [
    | inl q ↦ rw ((==_iff fsid 0).0 q) (end_all-AllOff g.windows)
    | inr q ↦ end_windows-AllOff fsid g.windows (s.off (rw q at h))
  ];
}

reclaimed_in-Keeps :
    (t : ℕ) (owner : List ℕ) (w : GraceWindow) (o : Option ℕ)
    → Keeps t w o
    → Keeps t (reclaimed_in owner w) (if is_nil (without owner w.pending) then none else o)
unfolding reclaimed_in
reclaimed_in-Keeps t owner w o k = elim (Bool-cases (is_nil (without owner w.pending))) [
  | inl q ↦ ground arith
  | inr q ↦ rw q (left_open o k q)
]
  where
    left_open :
        (o : Option ℕ)
        → Keeps t w o
        → is_nil (without owner w.pending) ≡ false
        → Keeps t (record w { pending = without owner w.pending }) o
    left_open none k q = k
    left_open (some d) (a, b, c) q = (a, q, c)

reclaimed_in-lists :
    (owner : List ℕ) (w : GraceWindow)
    → ((reclaimed_in owner w).pending ≡ without owner w.pending)
      × ((reclaimed_in owner w).listed ≡ w.listed)
unfolding reclaimed_in
reclaimed_in-lists owner w = ground arith

reclaimed_in-active :
    (owner : List ℕ) (w : GraceWindow) → w.active ≡ false → (reclaimed_in owner w).active ≡ false
unfolding reclaimed_in
reclaimed_in-active owner w h = ground arith

reclaimed_in-Matches :
    (t : ℕ) (owner : List ℕ) (w : GraceWindow) (p : Period)
    → Matches t w p
    → Matches t (reclaimed_in owner w) (done_in owner p)
unfolding done_in
reclaimed_in-Matches t owner w p (a, b, k) =
    let lists = reclaimed_in-lists owner w in
    (
      lists.0 ∙ ap (without owner) a,
      lists.1 ∙ b,
      subst
          (λ l. Keeps t (reclaimed_in owner w) (if is_nil (without owner l) then none else p.until))
          a (reclaimed_in-Keeps t owner w p.until k),
    )

reclaimed_all-Same :
    (t : ℕ) (owner : List ℕ) (ws : List (ℕ × GraceWindow)) (ps : List (ℕ × Period))
    → Same t ws ps
    → Same t (reclaimed_all owner ws) (done_all owner ps)
unfolding reclaimed_all done_all
reclaimed_all-Same t owner [] [] s = tt
reclaimed_all-Same t owner [] (p ∷ ps) s = absurd s
reclaimed_all-Same t owner (w ∷ ws) [] s = absurd s
reclaimed_all-Same t owner ((i, w) ∷ ws) ((j, p) ∷ ps) (e, m, s) =
    (e, reclaimed_in-Matches t owner w p m, reclaimed_all-Same t owner ws ps s)

reclaimed_all-AllOff :
    (owner : List ℕ) (ws : List (ℕ × GraceWindow)) → AllOff ws → AllOff (reclaimed_all owner ws)
unfolding reclaimed_all
reclaimed_all-AllOff owner [] h = tt
reclaimed_all-AllOff owner ((i, w) ∷ ws) h =
    (reclaimed_in-active owner w h.0, reclaimed_all-AllOff owner ws h.1)

pub note_reclaimed-Stands :
    (t : ℕ) (owner : List ℕ) (g : Grace) (ps : List (ℕ × Period))
    → Stands t g ps
    → Stands t (note_reclaimed owner g) (done_all owner ps)
unfolding note_reclaimed
note_reclaimed-Stands t owner g ps s = record {
  same = reclaimed_all-Same t owner g.windows ps s.same;
  off = λ h. reclaimed_all-AllOff owner g.windows (s.off h);
}
