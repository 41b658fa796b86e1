-- ===== src/Xdr/Chain.antt =====
-- The decoder of src/xdr/xdr.hpp over a chain, and the bytes of its segments.
use lightnfs.Prelude.{
  ℕ, ◌≡◌, ◌≤◌, refl, ap, sym, ◌∙◌, ◌+◌, ◌-◌, inl, inr, List, [], ◌∷◌, ◌++◌, leb, ◌==◌, length,
  length-append, take, drop, arith, Bool-cases, length-drop, drop-append_eq, drop-append_le,
  drop-append_ge, take-append_le, take-append_ge, drop-drop, drop_nil, take_nil,
}
use lightnfs.Xdr.Decode.{Source, chain, flat, concat, skip_finished, gather, fetch_segs, fetch}

-- The offset stands in the first segment.
abbrev pub Within : ℕ → List (List ℕ) → Type 0
Within off [] = off ≡ 0
Within off (s ∷ segs) = off ≤ length s

abbrev pub rest_of : ℕ → List (List ℕ) → List ℕ
rest_of off segs = drop off (concat segs)

pub Within-zero : (segs : List (List ℕ)) → Within 0 segs
Within-zero [] = refl
Within-zero (s ∷ segs) = omega arith

skip_finished_lem :
    (off : ℕ) (segs : List (List ℕ))
    → Within off segs
    → (let r = skip_finished off segs in Within r.0 r.1 × (rest_of r.0 r.1 ≡ rest_of off segs))
unfolding skip_finished
skip_finished_lem off [] h = (h, refl)
skip_finished_lem off (s ∷ segs) h = elim (Bool-cases (off == length s)) [
  | inl q ↦
      let at_end : off ≡ length s = ground arith in
      let (inside, same) = skip_finished_lem 0 segs (Within-zero segs) in
      rw q (
        inside,
        same
            ∙ sym
                (ap (λ (k : ℕ). drop k (s ++ concat segs)) at_end ∙ drop-append_eq s (concat segs)),
      )
  | inr q ↦ rw q (h, refl)
]

-- `r` has the next `n` bytes, and stands after them.
abbrev IsRead : ℕ → ℕ → List (List ℕ) → List ℕ × ℕ × List (List ℕ) → Type 0
IsRead n off segs r =
    (r.0 ≡ take n (rest_of off segs))
    × Within r.1 r.2
    × (rest_of r.1 r.2 ≡ drop n (rest_of off segs))

one_segment :
    (n off : ℕ) (s : List ℕ) (segs : List (List ℕ))
    → off ≤ length s
    → n ≤ length s - off
    → IsRead n off (s ∷ segs) (take n (drop off s), off + n, s ∷ segs)
one_segment n off s segs h fits =
    let here : n ≤ length (drop off s) = rw (length-drop off s) fits in
    (
      sym (
          ap (take n) (drop-append_le off s (concat segs) h)
          ∙ take-append_le n (drop off s) (concat segs) here),
      omega arith,
      sym (drop-drop n off (s ++ concat segs)),
    )

nothing_left :
    (n off : ℕ) → Within off [] → n ≤ length (rest_of off []) → IsRead n off [] ([], off, [])
nothing_left n off h fits =
    let gone = drop_nil {A = ℕ} off in
    (sym (ap (take n) gone ∙ take_nil n), h, gone ∙ sym (ap (drop n) gone ∙ drop_nil n))

gather_lem :
    (n off : ℕ) (segs : List (List ℕ))
    → Within off segs
    → n ≤ length (rest_of off segs)
    → IsRead n off segs (gather n off segs)
unfolding gather
gather_lem n off [] h fits = nothing_left n off h fits
gather_lem n off (s ∷ segs) h fits = elim (Bool-cases (leb n (length s - off))) [
  | inl q ↦ rw q (one_segment n off s segs h (ground arith))
  | inr q ↦
      let avail = length s - off in
      let split = drop-append_le off s (concat segs) h in
      let measured = length-drop off s in
      let total : length (rest_of off (s ∷ segs)) ≡ avail + length (concat segs) =
        omega (arith, ap length split, length-append (drop off s) (concat segs), measured) in
      let past : length (drop off s) ≤ n = ground (arith, measured) in
      let same : n - length (drop off s) ≡ n - avail = ap (λ (k : ℕ). n - k) measured in
      let (bytes, inside, left) =
        gather_lem (n - avail) 0 segs (Within-zero segs) (omega (arith, fits, total)) in
      rw q (
        ap (λ (t : List ℕ). drop off s ++ t)
              (bytes ∙ ap (λ (k : ℕ). take k (concat segs)) (sym same))
            ∙ sym (ap (take n) split ∙ take-append_ge n (drop off s) (concat segs) past),
        inside,
        left
            ∙ ap (λ (k : ℕ). drop k (concat segs)) (sym same)
            ∙ sym (ap (drop n) split ∙ drop-append_ge n (drop off s) (concat segs) past),
      )
]

-- The way without a copy gives the same.
fetch_segs-gather :
    (n off : ℕ) (segs : List (List ℕ)) → fetch_segs n (off, segs) ≡ gather n off segs
unfolding fetch_segs gather
fetch_segs-gather n off [] = refl
fetch_segs-gather n off (s ∷ segs) = elim (Bool-cases (leb n (length s - off))) [
  | inl q ↦ rw q
  | inr q ↦ rw q
]

-- The bytes that are left of a source, and the offsets that it may have.
abbrev pub bytes_left : Source → ℕ → List ℕ
bytes_left (chain segs) off = rest_of off segs
bytes_left (flat bytes) off = drop off bytes

abbrev pub Inside : Source → ℕ → Type 0
Inside (chain segs) off = Within off segs
Inside (flat bytes) off = Unit {0}

pub fetch_lem :
    (n off : ℕ) (source : Source)
    → Inside source off
    → n ≤ length (bytes_left source off)
    → (let r = fetch n off source in
        (r.0 ≡ take n (bytes_left source off))
        × Inside r.2 r.1
        × (bytes_left r.2 r.1 ≡ drop n (bytes_left source off)))
unfolding fetch
fetch_lem n off (flat bytes) h fits = (refl, tt, sym (drop-drop n off bytes))
fetch_lem n off (chain segs) h fits =
    let r = skip_finished off segs in
    let (inside, same) = skip_finished_lem off segs h in
    let (bytes, within, left) =
      rw (← fetch_segs-gather n r.0 r.1) at (gather_lem n r.0 r.1 inside (rw same fits)) in
    (bytes ∙ ap (take n) same, within, left ∙ ap (drop n) same)
