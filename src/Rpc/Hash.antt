-- ===== src/Rpc/Hash.antt =====
-- The hash of the arguments in `parse_call` of src/rpc/rpc_msg.cpp.
use lightnfs.Prelude.{
  ℕ, ◌≡◌, ◌≤◌, refl, sym, ap, ◌∙◌, ◌+◌, ◌-◌, min, inl, inr, arith, ◌&&◌, List, [], ◌∷◌, ◌++◌, ltb,
  leb, ◌==◌, length, take, drop, Bool-cases, length-drop, drop-append_le, drop-append_ge,
  take-append, take_nil, drop_nil,
}
use lightnfs.Xdr.Decode.{concat}
use lightnfs.Rpc.Call.{fnv, begin_of, hash_segs}

fnv-append : (xs : List ℕ) (h : ℕ) (ys : List ℕ) → fnv h (xs ++ ys) ≡ fnv (fnv h xs) ys
unfolding fnv
fnv-append [] h ys = refl
fnv-append (x ∷ xs) h ys = fnv-append xs _ ys

begin_of_lem :
    (off skipped : ℕ) (s : List ℕ) → begin_of off skipped s ≡ min (length s) (off - skipped)
unfolding begin_of
begin_of_lem off skipped s = ground arith

-- A segment whose arguments begin in it.
hashed_here :
    (h want k : ℕ) (s rest : List ℕ)
    → k ≤ length s
    → fnv
        (fnv h (take (min (length s - k) want) (drop k s)))
        (take (want - min (length s - k) want) rest)
      ≡ fnv h (take want (drop k (s ++ rest)))
hashed_here h want k s rest le =
    let here = take-append want (drop k s) rest in
    let cut : take want (drop k (s ++ rest))
        ≡ take (min (length s - k) want) (drop k s) ++ take (want - min (length s - k) want) rest =
      ap (take want) (drop-append_le k s rest le) ∙ (rw (length-drop k s) at here) in
    sym (
      ap (fnv h) cut
      ∙ fnv-append (take (min (length s - k) want) (drop k s)) h
          (take (want - min (length s - k) want) rest))

-- The segments are hashed as one string, from where the arguments start.
pub hash_segs-fnv :
    (off skipped want h : ℕ) (segs : List (List ℕ))
    → skipped ≤ off
    → hash_segs off skipped want h segs ≡ fnv h (take want (drop (off - skipped) (concat segs)))
unfolding hash_segs fnv
hash_segs-fnv off skipped want h [] le =
    rw (drop_nil {A = ℕ} (off - skipped), take_nil {A = ℕ} want)
hash_segs-fnv off skipped want h (s ∷ segs) le =
    let b = min (length s) (off - skipped) in
    rw (begin_of_lem off skipped s) (elim (Bool-cases (want == 0)) [
      | inl z ↦ let zero_bytes : want ≡ 0 = ground arith in rw (z, zero_bytes)
      | inr z ↦ elim (Bool-cases (ltb skipped off && leb (length s) b)) [
        | inl q ↦
            let past : length s ≤ off - skipped = ground arith in
            let less : off - (skipped + b) ≡ off - skipped - length s = ground arith in
            rw (z, q)
              (hash_segs-fnv off (skipped + b) want h segs (omega arith)
                ∙ ap (λ (k : ℕ). fnv h (take want (drop k (concat segs)))) less
                ∙ ap (λ (t : List ℕ). fnv h (take want t))
                    (sym (drop-append_ge (off - skipped) s (concat segs) past)))
        | inr q ↦
            let inside : off - skipped ≤ length s = ground arith in
            let same : b ≡ off - skipped = omega arith in
            let done : off - (skipped + b) ≡ 0 = omega (arith, inside, same, le) in
            let n = min (length s - b) want in
            rw (z, q)
              (hash_segs-fnv off (skipped + b) (want - n) (fnv h (take n (drop b s))) segs
                  (omega arith)
                ∙ ap
                    (λ (k : ℕ).
                      fnv (fnv h (take n (drop b s))) (take (want - n) (drop k (concat segs))))
                    done
                ∙ hashed_here h want b s (concat segs) (omega arith)
                ∙ ap (λ (k : ℕ). fnv h (take want (drop k (s ++ concat segs)))) same)
      ]
    ])
