-- ===== src/Grace/Same.antt =====
-- The windows of the code beside the periods that they stand for: the lemmas for one call.
use lightnfs.Prelude.{
  ℕ, ◌-◌, ◌/◌, ◌^◌, ◌≤◌, ◌≡◌, ◌⊎◌, inl, inr, refl, ◌∙◌, max, Bool, true, false, ◌&&◌, ◌||◌, not,
  Option, none, some, List, [], ◌∷◌, arith, ◌==◌, if◌then◌else◌,
}
use lightnfs.Maps.{number, bytes}
use lightnfs.Grace.Windows.{GraceWindow, is_nil, window_live, look, longest}
use lightnfs.Grace.Periods.{Period, concerns, before, left, is_open, any_open, seconds_left}

-- A window whose period has ended at time `t` may still be marked active, and only such a window of
-- an open period is not.
abbrev pub Keeps : ℕ → GraceWindow → Option ℕ → Type 0
Keeps t w none = w.active ≡ false
Keeps t w (some d) = (w.deadline ≡ d) × (is_nil w.pending ≡ false) × ((w.active ≡ true) ⊎ (d ≤ t))

abbrev pub Matches : ℕ → GraceWindow → Period → Type 0
Matches t w p = (w.pending ≡ p.pending) × (w.listed ≡ p.listed) × Keeps t w p.until

abbrev pub Same : ℕ → List (ℕ × GraceWindow) → List (ℕ × Period) → Type 0
Same t [] [] = Unit
Same t [] (p ∷ ps) = ⊥
Same t (w ∷ ws) [] = ⊥
Same t ((i, w) ∷ ws) ((j, p) ∷ ps) = (i ≡ j) × Matches t w p × Same t ws ps

abbrev pub AllOff : List (ℕ × GraceWindow) → Type 0
AllOff [] = Unit
AllOff ((i, w) ∷ ws) = (w.active ≡ false) × AllOff ws

Keeps-later : (t u : ℕ) (w : GraceWindow) (o : Option ℕ) → t ≤ u → Keeps t w o → Keeps u w o
Keeps-later t u w none h k = k
Keeps-later t u w (some d) h (a, b, inl c) = (a, b, inl c)
Keeps-later t u w (some d) h (a, b, inr c) = (a, b, inr (omega arith))

pub Same-later :
    (t u : ℕ) (ws : List (ℕ × GraceWindow)) (ps : List (ℕ × Period))
    → t ≤ u
    → Same t ws ps
    → Same u ws ps
Same-later t u [] [] h s = tt
Same-later t u [] (p ∷ ps) h s = s
Same-later t u (w ∷ ws) [] h s = s
Same-later t u ((i, w) ∷ ws) ((j, p) ∷ ps) h (e, (a, b, k), s) =
    (e, (a, b, Keeps-later t u w p.until h k), Same-later t u ws ps h s)

pub or_left : (a b : Bool) → (a || b) ≡ false → a ≡ false
or_left a b h = ground arith

pub or_right : (a b : Bool) → (a || b) ≡ false → b ≡ false
or_right a b h = ground arith

Keeps-off :
    (t : ℕ) (w : GraceWindow) (o : Option ℕ) → Keeps t w o → w.active ≡ false → before t o ≡ false
Keeps-off t w none k h = refl
Keeps-off t w (some d) (a, b, inl c) h = absurd (cc)
Keeps-off t w (some d) (a, b, inr c) h = ground arith

-- A look at one window.
window_live-lists :
    (t : ℕ) (w : GraceWindow)
    → ((window_live t w).1.pending ≡ w.pending) × ((window_live t w).1.listed ≡ w.listed)
unfolding window_live
window_live-lists t w = ground arith

window_live-Keeps :
    (t : ℕ) (w : GraceWindow) (o : Option ℕ) → Keeps t w o → Keeps t (window_live t w).1 o
unfolding window_live
window_live-Keeps t w none k = ground arith
window_live-Keeps t w (some d) k = ground arith

window_live-before :
    (t : ℕ) (w : GraceWindow) (o : Option ℕ) → Keeps t w o → (window_live t w).0 ≡ before t o
unfolding window_live
window_live-before t w none k = ground arith
window_live-before t w (some d) k = ground arith

window_live-off :
    (t : ℕ) (w : GraceWindow) → (window_live t w).0 ≡ false → (window_live t w).1.active ≡ false
unfolding window_live
window_live-off t w h = ground arith

pub record IsLooked (t fsid : ℕ) (ps : List (ℕ × Period)) (r : Bool × Bool × List (ℕ × GraceWindow))
    : Type 0 where
  pub any : r.0 ≡ any_open t ps
  pub hit : r.1 ≡ is_open t fsid ps
  pub same : Same t r.2 ps
  pub off : r.0 ≡ false → AllOff r.2

-- A look at all windows.
pub look-IsLooked :
    (t fsid : ℕ) (ws : List (ℕ × GraceWindow)) (ps : List (ℕ × Period))
    → Same t ws ps
    → IsLooked t fsid ps (look t fsid ws)
unfolding look any_open is_open
look-IsLooked t fsid [] [] s = record { any = refl; hit = refl; same = tt; off = λ h. tt }
look-IsLooked t fsid [] (p ∷ ps) s = absurd s
look-IsLooked t fsid (w ∷ ws) [] s = absurd s
look-IsLooked t fsid ((i, w) ∷ ws) ((j, p) ∷ ps) (e, (a, b, k), s) =
    let rest = look-IsLooked t fsid ws ps s in
    let now = window_live-before t w p.until k in
    record {
      any = rw (now, rest.any);
      hit = rw (now, rest.hit, e);
      same = (
        e,
        (
          (window_live-lists t w).0 ∙ a,
          (window_live-lists t w).1 ∙ b,
          window_live-Keeps t w p.until k,
        ),
        rest.same,
      );
      off = λ h. (window_live-off t w (or_left _ _ h), rest.off (or_right _ _ h));
    }

pub AllOff-is_open :
    (t fsid : ℕ) (ws : List (ℕ × GraceWindow)) (ps : List (ℕ × Period))
    → Same t ws ps
    → AllOff ws
    → (any_open t ps ≡ false) × (is_open t fsid ps ≡ false)
unfolding any_open is_open
AllOff-is_open t fsid [] [] s h = (refl, refl)
AllOff-is_open t fsid [] (p ∷ ps) s h = absurd s
AllOff-is_open t fsid (w ∷ ws) [] s h = absurd s
AllOff-is_open t fsid ((i, w) ∷ ws) ((j, p) ∷ ps) (e, (a, b, k), s) (off, h) =
    let rest = AllOff-is_open t fsid ws ps s h in
    let over = Keeps-off t w p.until k off in (rw (over, rest.0), rw (over, rest.1))

longest_one :
    (t fsid j : ℕ) (w : GraceWindow) (o : Option ℕ)
    → Keeps t w o
    → (rest : ℕ)
    → (if not w.active || (not (j == 0) && not (j == fsid))
        then rest
        else max ((w.deadline - t) / 10 ^ 9) rest)
      ≡ (if concerns fsid j then max (left t o) rest else rest)
longest_one t fsid j w none k rest = ground arith
longest_one t fsid j w (some d) k rest = ground arith

left_closed :
    (t : ℕ) (o : Option ℕ) (c : Bool)
    → (before t o && c) ≡ false
    → (if c then max (left t o) 0 else 0) ≡ 0
left_closed t none c h = ground arith
left_closed t (some d) c h = ground arith

pub longest-seconds_left :
    (t fsid : ℕ) (ws : List (ℕ × GraceWindow)) (ps : List (ℕ × Period))
    → Same t ws ps
    → longest t fsid ws ≡ seconds_left t fsid ps
unfolding longest seconds_left
longest-seconds_left t fsid [] [] s = refl
longest-seconds_left t fsid [] (p ∷ ps) s = absurd s
longest-seconds_left t fsid (w ∷ ws) [] s = absurd s
longest-seconds_left t fsid ((i, w) ∷ ws) ((j, p) ∷ ps) (e, (a, b, k), s) =
    let rest = longest-seconds_left t fsid ws ps s in
    rw (rest, e) (longest_one t fsid j w p.until k (seconds_left t fsid ps))

pub is_open-seconds_left :
    (t fsid : ℕ) (ps : List (ℕ × Period)) → is_open t fsid ps ≡ false → seconds_left t fsid ps ≡ 0
unfolding is_open seconds_left
is_open-seconds_left t fsid [] h = refl
is_open-seconds_left t fsid ((j, p) ∷ ps) h =
    let rest = is_open-seconds_left t fsid ps (or_right _ _ h) in
    rw rest (left_closed t p.until (concerns fsid j) (or_left _ _ h))
