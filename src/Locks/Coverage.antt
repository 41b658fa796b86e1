-- ===== src/Locks/Coverage.antt =====
-- What a segment list of src/state/lock_mgr.cpp means: which byte is locked by whom and how.
use mathlib.Core.List.{reverse, reverse-cons}
use lightnfs.Prelude.{
  ℕ, ◌≤◌, ◌<◌, ◌≡◌, refl, ap, ◌∙◌, Bool, true, false, ◌&&◌, ◌||◌, not, List, [], ◌∷◌, ◌++◌, arith,
  ltb, leb, bool_eq, if◌then◌else◌, All, Bool-cases, inl, inr,
}
use lightnfs.Locks.Types.{
  LockOwnerId, LockSeg, same_owner, same_owner_cong, same_owner_comm, overlaps,
}
use lightnfs.Locks.Segs.{
  carve_seg, carve, insert_by_start, sort_by_start, fuses, fused, fuse, absorb,
}

abbrev pub within : ℕ → ℕ → ℕ → Bool
within p start end = leb start p && ltb p end

abbrev pub covers : LockOwnerId → Bool → ℕ → LockSeg → Bool
covers o x p s = same_owner s.owner o && bool_eq s.exclusive x && within p s.start s.end

-- `o` has a lock of the mode `x` on the byte `p`.
abbrev pub held : LockOwnerId → Bool → ℕ → List LockSeg → Bool
held o x p [] = false
held o x p (s ∷ segs) = covers o x p s || held o x p segs

abbrev pub IsProper : List LockSeg → Type 0
IsProper = All λ s. s.start < s.end

module _ (o : LockOwnerId) (x : Bool) (p : ℕ) where
  pub held-append :
      (xs ys : List LockSeg) → held o x p (xs ++ ys) ≡ (held o x p xs || held o x p ys)
  held-append [] ys = refl
  held-append (s ∷ xs) ys = ground (arith, held-append xs ys)

  pub held-if :
      (b : Bool) (s : LockSeg) → held o x p (if b then s ∷ [] else []) ≡ (b && covers o x p s)
  held-if true s = ground arith
  held-if false s = refl

  pub held-reverse : (xs : List LockSeg) → held o x p (reverse xs) ≡ held o x p xs
  held-reverse [] = refl
  held-reverse (s ∷ xs) =
      rw (reverse-cons s xs, held-append (reverse xs) (s ∷ []), held-reverse xs) (ground arith)

  pub held-insert :
      (s : LockSeg) (xs : List LockSeg)
      → held o x p (insert_by_start s xs) ≡ (covers o x p s || held o x p xs)
  unfolding insert_by_start
  held-insert s [] = refl
  held-insert s (t ∷ xs) = ground (arith, held-insert s xs)

  pub held-sort : (xs : List LockSeg) → held o x p (sort_by_start xs) ≡ held o x p xs
  unfolding sort_by_start
  held-sort [] = refl
  held-sort (s ∷ xs) =
      held-insert s (sort_by_start xs) ∙ ap (λ b. covers o x p s || b) (held-sort xs)

  module _ (owner : LockOwnerId) (start end : ℕ) (ordered : start ≤ end) where
    covers-carve_seg :
        (s : LockSeg)
        → held o x p (carve_seg owner start end s)
          ≡ (covers o x p s && not (same_owner o owner && within p start end))
    unfolding carve_seg
    covers-carve_seg s =
        elim (Bool-cases (not (same_owner s.owner owner) || not (overlaps s start end))) [
          | inl e ↦
              rw e (ground (arith, same_owner_cong s.owner o owner, same_owner_comm s.owner owner))
          | inr e ↦ rw e (
              rw
                (
                  held-append (if ltb s.start start then record s { end = start } ∷ [] else []) _,
                  held-if (ltb s.start start),
                  held-if (ltb end s.end),
                )
                (ground (arith, same_owner_cong s.owner o owner)))
        ]

    -- `carve` takes from its owner the bytes of the range, and nothing else from anybody.
    pub held-carve :
        (segs : List LockSeg)
        → held o x p (carve owner start end segs)
          ≡ (held o x p segs && not (same_owner o owner && within p start end))
    unfolding carve
    held-carve [] = refl
    held-carve (s ∷ segs) =
        rw (held-append (carve_seg owner start end s) (carve owner start end segs))
          (ground (arith, covers-carve_seg s, held-carve segs))

pub fuses_parts :
    (t s : LockSeg)
    → fuses t s ≡ true
    → (same_owner t.owner s.owner ≡ true)
      × (t.exclusive ≡ s.exclusive)
      × (s.start ≤ t.end)
      × (t.start ≤ s.end)
unfolding fuses
fuses_parts t s h = ground arith

module _ (o : LockOwnerId) (x : Bool) (p : ℕ) where
  covers-fused :
      (t s : LockSeg)
      → fuses t s ≡ true
      → t.start < t.end
      → s.start < s.end
      → covers o x p (fused t s) ≡ (covers o x p s || covers o x p t)
  covers-fused t s h ht hs = ground (arith, fuses_parts t s h, same_owner_cong t.owner s.owner o)

  pub held-fuse :
      (s : LockSeg) (out : List LockSeg)
      → s.start < s.end
      → IsProper out
      → held o x p (fuse s out).1 ≡ (((fuse s out).0 && covers o x p s) || held o x p out)
  unfolding fuse
  held-fuse s [] hs h = refl
  held-fuse s (t ∷ out) hs h = elim (Bool-cases (fuses t s)) [
    | inl e ↦ rw e (rw (covers-fused t s e h.0 hs) (ground arith))
    | inr e ↦ rw e (rw (held-fuse s out hs h.1) (ground arith))
  ]

  pub held-absorb :
      (out : List LockSeg) (s : LockSeg)
      → s.start < s.end
      → IsProper out
      → held o x p (absorb out s) ≡ (covers o x p s || held o x p out)
  unfolding absorb
  held-absorb out s hs h = elim (Bool-cases (fuse s out).0) [
    | inl e ↦ rw e (rw (held-fuse s out hs h, e) refl)
    | inr e ↦ rw e (rw (held-fuse s out hs h, e) refl)
  ]
