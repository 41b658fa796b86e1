-- ===== src/Sessions/Sized.antt =====
-- The number of slots of a session of src/state/state_mgr.hpp, fixed at its creation.
use lightnfs.Prelude.{ℕ, ◌≡◌, sym, ◌∙◌, inl, inr, some, List, length, bytes_eq, Bool-cases}
use lightnfs.Maps.{bytes, find, put, erase, find-put, find-erase}
use lightnfs.Sessions.Types.{Session}

-- A session has as many slots as its count says.
pub record IsSized (t : List (List ℕ × Session)) : Type 0 where
  pub sized : (id : List ℕ) (s : Session) → find id t ≡ some s → s.slot_count ≡ length s.slots

pub put-IsSized :
    (t : List (List ℕ × Session)) (id : List ℕ) (s : Session)
    → s.slot_count ≡ length s.slots
    → IsSized t
    → IsSized (put id s t)
put-IsSized t id s h z = record {
  sized = λ j s' e. elim (Bool-cases (bytes_eq id j)) [
    | inl q ↦ let same : s ≡ s' = cc (sym (find-put j id s t) ∙ e, q) in rw (← same) h
    | inr q ↦ z.sized j s' (rw (find-put j id s t, q) at e)
  ];
}

pub erase-IsSized : (t : List (List ℕ × Session)) (id : List ℕ) → IsSized t → IsSized (erase id t)
erase-IsSized t id z = record {
  sized = λ j s e. elim (Bool-cases (bytes_eq id j)) [
    | inl q ↦ cc (sym (find-erase j id t) ∙ e, q)
    | inr q ↦ z.sized j s (rw (find-erase j id t, q) at e)
  ];
}
