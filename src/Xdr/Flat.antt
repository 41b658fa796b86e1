-- ===== src/Xdr/Flat.antt =====
-- The decoders of src/xdr/xdr.hpp on plain bytes, as RFC 4506 has them, beside the decoder.
use lightnfs.Prelude.{
  ℕ, ◌≡◌, refl, sym, ap, ◌∙◌, ◌-◌, inl, inr, arith, Bool, true, false, Option, none, some, List, [],
  ltb, ◌==◌, if◌then◌else◌, length, length-drop, take, drop, ◌>>=◌, Bool-cases,
}
use lightnfs.Xdr.Decode.{
  XdrDec, of_chain, be, pad4, take_bytes, u32, u64, boolean, skip, opaque_fixed, opaque,
}
use lightnfs.Xdr.Chain.{bytes_left, Inside, Within-zero, fetch_lem}

unfoldable pub bytes_flat : ℕ → List ℕ → Option (List ℕ × List ℕ)
bytes_flat n bytes = if ltb (length bytes) n then none else some (take n bytes, drop n bytes)

-- What a decoder has before it.
abbrev pub view : XdrDec → List ℕ
view d = bytes_left d.source d.off

pub record IsDec (d : XdrDec) : Type 0 where
  pub inside : Inside d.source d.off
  pub counted : d.remaining ≡ length (view d)

pub of_chain-IsDec : (segs : List (List ℕ)) → IsDec (of_chain segs)
of_chain-IsDec segs = record { inside = Within-zero segs; counted = refl }

-- Both fail, or both give one value and agree on what is left.
abbrev pub Agrees : {A : Type 0} → Option (A × XdrDec) → Option (A × List ℕ) → Type 0
Agrees none none = Unit {0}
Agrees none (some p) = ⊥
Agrees (some r) none = ⊥
Agrees (some r) (some p) = (r.0 ≡ p.0) × (view r.1 ≡ p.1) × IsDec r.1

take_bytes-Agrees : (n : ℕ) (d : XdrDec) → IsDec d → Agrees (take_bytes n d) (bytes_flat n (view d))
unfolding take_bytes bytes_flat
take_bytes-Agrees n d h = elim (Bool-cases (ltb d.remaining n)) [
  | inl q ↦ let short : ltb (length (view d)) n ≡ true = rw (h.counted) at q in rw (q, short) tt
  | inr q ↦
      let fits : ltb (length (view d)) n ≡ false = rw (h.counted) at q in
      elim (Bool-cases (n == 0)) [
        | inl z ↦
            let zero_bytes : n ≡ 0 = ground arith in rw (q, fits, z, zero_bytes) (refl, refl, h)
        | inr z ↦
            let (bytes, within, left) = fetch_lem n d.off d.source h.inside (ground arith) in
            rw (q, fits, z)
              (
                bytes,
                left,
                record {
                  inside = within;
                  counted =
                      ap (λ (k : ℕ). k - n) h.counted
                      ∙ sym (ap length left ∙ length-drop n (view d));
                },
              )
      ]
]

-- A step after a step.
pub bind-Agrees :
    {A : Type 0} {B : Type 0} (r : Option (A × XdrDec)) (p : Option (A × List ℕ))
    → (f : A × XdrDec → Option (B × XdrDec)) (g : A × List ℕ → Option (B × List ℕ)) → Agrees r p
    → ((a : A) (d : XdrDec) → IsDec d → Agrees (f (a, d)) (g (a, view d)))
    → Agrees (r >>= f) (p >>= g)
bind-Agrees none none f g h k = tt
bind-Agrees none (some p) f g h k = absurd h
bind-Agrees (some r) none f g h k = absurd h
bind-Agrees (some (a, d)) (some (b, bytes)) f g h k = rw (← h.0, ← h.1) (k a d h.2)

unfoldable pub u32_flat : List ℕ → Option (ℕ × List ℕ)
u32_flat bytes = do (p, rest) ← bytes_flat 4 bytes; some (be p, rest)

unfoldable pub u64_flat : List ℕ → Option (ℕ × List ℕ)
u64_flat bytes = do (p, rest) ← bytes_flat 8 bytes; some (be p, rest)

unfoldable pub boolean_flat : List ℕ → Option (Bool × List ℕ)
boolean_flat bytes = do (v, rest) ← u32_flat bytes; if ltb 1 v then none else some (v == 1, rest)

-- The bytes and the padding to a multiple of four.
unfoldable pub opaque_fixed_flat : ℕ → List ℕ → Option (List ℕ × List ℕ)
opaque_fixed_flat n bytes = do
  (p, rest) ← bytes_flat n bytes
  (padding, after) ← bytes_flat (pad4 n) rest
  some (p, after)

unfoldable pub opaque_flat : ℕ → List ℕ → Option (List ℕ × List ℕ)
opaque_flat max bytes = do
  (len, rest) ← u32_flat bytes
  if ltb max len then none else opaque_fixed_flat len rest

pub u32-Agrees : (d : XdrDec) → IsDec d → Agrees (u32 d) (u32_flat (view d))
unfolding u32 u32_flat
u32-Agrees d h = bind-Agrees _ _ _ _ (take_bytes-Agrees 4 d h) (λ p d' h'. (refl, refl, h'))

pub u64-Agrees : (d : XdrDec) → IsDec d → Agrees (u64 d) (u64_flat (view d))
unfolding u64 u64_flat
u64-Agrees d h = bind-Agrees _ _ _ _ (take_bytes-Agrees 8 d h) (λ p d' h'. (refl, refl, h'))

-- A test that both make.
pub test-Agrees :
    {A : Type 0} (b : Bool) (r : Option (A × XdrDec)) (p : Option (A × List ℕ))
    → Agrees r p
    → Agrees (if b then none else r) (if b then none else p)
test-Agrees true r p h = tt
test-Agrees false r p h = h

pub boolean-Agrees : (d : XdrDec) → IsDec d → Agrees (boolean d) (boolean_flat (view d))
unfolding boolean boolean_flat
boolean-Agrees d h =
    bind-Agrees _ _ _ _ (u32-Agrees d h) (λ v d' h'.
      test-Agrees (ltb 1 v) (some (v == 1, d')) (some (v == 1, view d')) (refl, refl, h'))

bytes_flat-zero : (bytes : List ℕ) → bytes_flat 0 bytes ≡ some ([], bytes)
unfolding bytes_flat
bytes_flat-zero bytes = let fits : ltb (length bytes) 0 ≡ false = ground arith in rw fits

skipped-Agrees :
    (p : List ℕ) (r : Option (List ℕ × XdrDec)) (q : Option (List ℕ × List ℕ))
    → Agrees r q
    → Agrees
        (◌>>=◌ {B = List ℕ × XdrDec}
          (◌>>=◌ {B = Unit {0} × XdrDec} r (λ x. some (tt, x.1)))
          (λ x. some (p, x.1)))
        (◌>>=◌ {B = List ℕ × List ℕ} q (λ x. some (p, x.1)))
skipped-Agrees p none none h = tt
skipped-Agrees p none (some y) h = absurd h
skipped-Agrees p (some x) none h = absurd h
skipped-Agrees p (some x) (some y) h = (refl, h.1, h.2)

skip-Agrees :
    (n : ℕ) (p : List ℕ) (d : XdrDec)
    → IsDec d
    → Agrees (skip n d >>= λ r. some (p, r.1)) (bytes_flat n (view d) >>= λ r. some (p, r.1))
unfolding skip
skip-Agrees n p d h = elim (Bool-cases (n == 0)) [
  | inl z ↦
      let zero_bytes : n ≡ 0 = ground arith in
      rw (z, zero_bytes, bytes_flat-zero (view d)) (refl, refl, h)
  | inr z ↦
      rw z (skipped-Agrees p (take_bytes n d) (bytes_flat n (view d)) (take_bytes-Agrees n d h))
]

pub opaque_fixed-Agrees :
    (n : ℕ) (d : XdrDec) → IsDec d → Agrees (opaque_fixed n d) (opaque_fixed_flat n (view d))
unfolding opaque_fixed opaque_fixed_flat
opaque_fixed-Agrees n d h =
    bind-Agrees _ _ _ _ (take_bytes-Agrees n d h) (λ p d' h'. skip-Agrees (pad4 n) p d' h')

-- Over a decoder whose count is right, `opaque` reads what RFC 4506 reads from the bytes that are
-- left, or fails with it: however the bytes are cut into segments.
pub opaque-Agrees :
    (max : ℕ) (d : XdrDec) → IsDec d → Agrees (opaque max d) (opaque_flat max (view d))
unfolding opaque opaque_flat
opaque-Agrees max d h = bind-Agrees _ _ _ _ (u32-Agrees d h) (λ len d' h'.
    test-Agrees (ltb max len) (opaque_fixed len d') (opaque_fixed_flat len (view d'))
      (opaque_fixed-Agrees len d' h'))
