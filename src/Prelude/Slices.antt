-- ===== src/Prelude/Slices.antt =====
-- What `take` and `drop` make of lists.
use Prim.Native.Nat.{ℕ, zero, suc, ◌+◌, ◌-◌, ◌≤◌, min}
use mathlib.Core.Path.{◌≡◌, refl, sym, ap, ◌∙◌}
use mathlib.Core.List.{List, [], ◌∷◌, ◌++◌}
use native.Mathlib.Omega.{arith}
use lightnfs.Prelude.Lists.{length, take, drop}

module _ {ℓ} {A : Type ℓ} where
  pub take_nil : (n : ℕ) → take {A = A} n [] ≡ []
  take_nil zero = refl
  take_nil (suc n) = refl

  pub drop_nil : (n : ℕ) → drop {A = A} n [] ≡ []
  drop_nil zero = refl
  drop_nil (suc n) = refl

  pub take-append_le : (n : ℕ) (xs ys : List A) → n ≤ length xs → take n (xs ++ ys) ≡ take n xs
  take-append_le zero xs ys h = refl
  take-append_le (suc n) [] ys h = elim h [ ]
  take-append_le (suc n) (x ∷ xs) ys h = rw (take-append_le n xs ys (omega arith))

  pub take-append_ge :
      (n : ℕ) (xs ys : List A) → length xs ≤ n → take n (xs ++ ys) ≡ xs ++ take (n - length xs) ys
  take-append_ge n [] ys h = let same : n ≡ n - 0 = omega arith in ap (λ (k : ℕ). take k ys) same
  take-append_ge zero (x ∷ xs) ys h = elim h [ ]
  take-append_ge (suc n) (x ∷ xs) ys h =
      let same : n - length xs ≡ suc n - suc (length xs) = omega arith in
      ap (λ (t : List A). x ∷ t)
        (take-append_ge n xs ys (omega arith) ∙ ap (λ (k : ℕ). xs ++ take k ys) same)

  pub drop-append_le :
      (n : ℕ) (xs ys : List A) → n ≤ length xs → drop n (xs ++ ys) ≡ drop n xs ++ ys
  drop-append_le zero xs ys h = refl
  drop-append_le (suc n) [] ys h = elim h [ ]
  drop-append_le (suc n) (x ∷ xs) ys h = drop-append_le n xs ys (omega arith)

  pub drop-append_ge :
      (n : ℕ) (xs ys : List A) → length xs ≤ n → drop n (xs ++ ys) ≡ drop (n - length xs) ys
  drop-append_ge n [] ys h = let same : n ≡ n - 0 = omega arith in ap (λ (k : ℕ). drop k ys) same
  drop-append_ge zero (x ∷ xs) ys h = elim h [ ]
  drop-append_ge (suc n) (x ∷ xs) ys h =
      let same : n - length xs ≡ suc n - suc (length xs) = omega arith in
      drop-append_ge n xs ys (omega arith) ∙ ap (λ (k : ℕ). drop k ys) same

  pub drop-drop : (m n : ℕ) (xs : List A) → drop m (drop n xs) ≡ drop (n + m) xs
  drop-drop m zero xs = let same : m ≡ 0 + m = omega arith in ap (λ (k : ℕ). drop k xs) same
  drop-drop m (suc n) [] = drop_nil m ∙ sym (drop_nil (suc n + m))
  drop-drop m (suc n) (x ∷ xs) =
      let same : suc (n + m) ≡ suc n + m = omega arith in
      drop-drop m n xs ∙ ap (λ (k : ℕ). drop k (x ∷ xs)) same

  pub take_all : (n : ℕ) (xs : List A) → length xs ≤ n → take n xs ≡ xs
  take_all n [] h = take_nil n
  take_all zero (x ∷ xs) h = elim h [ ]
  take_all (suc n) (x ∷ xs) h = rw (take_all n xs (omega arith))

  pub take-append_eq : (xs ys : List A) → take (length xs) (xs ++ ys) ≡ xs
  take-append_eq xs ys =
      take-append_le (length xs) xs ys (omega arith) ∙ take_all (length xs) xs (omega arith)

  pub drop-append_eq : (xs ys : List A) → drop (length xs) (xs ++ ys) ≡ ys
  drop-append_eq [] ys = refl
  drop-append_eq (x ∷ xs) ys = drop-append_eq xs ys

  pub take-append :
      (n : ℕ) (xs ys : List A)
      → take n (xs ++ ys) ≡ take (min (length xs) n) xs ++ take (n - min (length xs) n) ys
  take-append n [] ys =
      let left : n ≡ n - min 0 n = omega arith in
      rw (take_nil (min 0 n)) (ap (λ (k : ℕ). take k ys) left)
  take-append zero (x ∷ xs) ys =
      let none_here : 0 ≡ min (suc (length xs)) 0 = omega arith in
      let nothing : 0 ≡ 0 - 0 = omega arith in rw (← none_here) (ap (λ (k : ℕ). take k ys) nothing)
  take-append (suc n) (x ∷ xs) ys =
      let here : suc (min (length xs) n) ≡ min (suc (length xs)) (suc n) = omega arith in
      let left : n - min (length xs) n ≡ suc n - min (suc (length xs)) (suc n) = omega arith in
      ap (λ (t : List A). x ∷ t) (take-append n xs ys)
      ∙ ap (λ (k : ℕ). take (suc (min (length xs) n)) (x ∷ xs) ++ take k ys) left
      ∙ ap (λ (k : ℕ). take k (x ∷ xs) ++ take (suc n - min (suc (length xs)) (suc n)) ys) here

  pub take-min : (n : ℕ) (xs : List A) → take (min (length xs) n) xs ≡ take n xs
  take-min n [] = take_nil (min 0 n) ∙ sym (take_nil n)
  take-min zero (x ∷ xs) =
      let none_here : min (suc (length xs)) 0 ≡ 0 = omega arith in
      ap (λ (k : ℕ). take k (x ∷ xs)) none_here
  take-min (suc n) (x ∷ xs) =
      let here : min (suc (length xs)) (suc n) ≡ suc (min (length xs) n) = omega arith in
      ap (λ (k : ℕ). take k (x ∷ xs)) here ∙ ap (λ (t : List A). x ∷ t) (take-min n xs)
