-- ===== src/Maps.antt =====
-- Association lists with Boolean keys, for the hash maps of the code, and lists of keys for its sets.
-- A map or set of the code has a key at most once; here `erase` and `without` drop every entry of it.
use lightnfs.Prelude.{
  ℕ, ◌≡◌, refl, Bool, true, false, ◌&&◌, ◌||◌, not, Option, none, some, List, [], ◌∷◌, arith,
  if◌then◌else◌, ◌==◌, ==_refl, bytes_eq, bytes_eq-eq, bytes_eq_refl,
}

-- Equality of keys.
pub record Key {ℓ} (K : Type ℓ) : Type ℓ where
  pub beq : K → K → Bool
  pub beq-eq : (a b : K) → beq a b ≡ true → a ≡ b
  pub beq_refl : (a : K) → beq a a ≡ true

pub ==-eq : (a b : ℕ) → (a == b) ≡ true → a ≡ b
==-eq a b h = ground arith

instance abbrev pub number : Key ℕ
number = record { beq = ◌==◌; beq-eq = ==-eq; beq_refl = ==_refl }

instance abbrev pub bytes : Key (List ℕ)
bytes = record { beq = bytes_eq; beq-eq = bytes_eq-eq; beq_refl = bytes_eq_refl }

module _ {ℓ κ} {K : Type ℓ} {V : Type κ} ⦃k : Key K⦄ where
  unfoldable pub find : K → List (K × V) → Option V
  find i [] = none
  find i ((j, v) ∷ m) = if k.beq j i then some v else find i m

  -- Writes the value of a key, in place if the key is there.
  unfoldable pub put : K → V → List (K × V) → List (K × V)
  put i v [] = (i, v) ∷ []
  put i v ((j, w) ∷ m) = let rest = put i v m in if k.beq j i then (j, v) ∷ m else (j, w) ∷ rest

  unfoldable pub erase : K → List (K × V) → List (K × V)
  erase i [] = []
  erase i ((j, w) ∷ m) = let rest = erase i m in if k.beq j i then rest else (j, w) ∷ rest

  pub find-put :
      (j i : K) (v : V) (m : List (K × V))
      → find j (put i v m) ≡ (if k.beq i j then some v else find j m)
  unfolding find put
  find-put j i v [] = refl
  find-put j i v ((h, w) ∷ m) = ground (
    arith,
    find-put j i v m,
    k.beq-eq h i,
    k.beq-eq h j,
    k.beq-eq i j,
    k.beq_refl i,
    k.beq_refl h,
  )

  pub find-erase :
      (j i : K) (m : List (K × V)) → find j (erase i m) ≡ (if k.beq i j then none else find j m)
  unfolding find erase
  find-erase j i [] = ground arith
  find-erase j i ((h, w) ∷ m) = ground (
    arith,
    find-erase j i m,
    k.beq-eq h i,
    k.beq-eq h j,
    k.beq-eq i j,
    k.beq_refl i,
    k.beq_refl h,
  )

module _ {ℓ} {K : Type ℓ} ⦃k : Key K⦄ where
  unfoldable pub has : K → List K → Bool
  has i [] = false
  has i (j ∷ s) = k.beq j i || has i s

  unfoldable pub add : K → List K → List K
  unfolding has
  add i s = if has i s then s else i ∷ s

  unfoldable pub without : K → List K → List K
  without i [] = []
  without i (j ∷ s) = let rest = without i s in if k.beq j i then rest else j ∷ rest

  has_same : (j i : K) (s : List K) → has i s ≡ true → k.beq i j ≡ true → has j s ≡ true
  unfolding has
  has_same j i [] p e = ground arith
  has_same j i (h ∷ s) p e =
      ground (arith, has_same j i s, k.beq-eq i j, k.beq-eq h i, k.beq_refl j)

  pub has-add : (j i : K) (s : List K) → has j (add i s) ≡ (k.beq i j || has j s)
  unfolding has add
  has-add j i [] = refl
  has-add j i (h ∷ s) = ground (arith, has_same j i (h ∷ s))

  pub has-without : (j i : K) (s : List K) → has j (without i s) ≡ (not (k.beq i j) && has j s)
  unfolding has without
  has-without j i [] = ground arith
  has-without j i (h ∷ s) = ground (
    arith,
    has-without j i s,
    k.beq-eq h i,
    k.beq-eq h j,
    k.beq-eq i j,
    k.beq_refl i,
    k.beq_refl h,
  )
