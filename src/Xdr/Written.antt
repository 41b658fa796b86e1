-- ===== src/Xdr/Written.antt =====
-- What the encoder of src/xdr/xdr.hpp writes, for the decoder to read.
use mathlib.Core.List.{append_assoc}
use mathlib.Core.Path.{subst}
use lightnfs.Prelude.{
  ℕ, ◌≡◌, ◌≤◌, ◌<◌, ap, ◌∙◌, ◌/◌, ◌%◌, ◌^◌, arith, false, some, List, [], ◌∷◌, ◌++◌, ltb, length,
  length-append, replicate, length-replicate, take-append_eq, drop-append_eq,
}
use lightnfs.Xdr.Decode.{concat, of_chain, opaque, be, pad4}
use lightnfs.Xdr.Flat.{
  Agrees, of_chain-IsDec, opaque-Agrees, bytes_flat, u32_flat, opaque_fixed_flat, opaque_flat,
}

-- The bytes of a number, most significant first.
abbrev pub be32 : ℕ → List ℕ
be32 v = v / 2 ^ 24 % 256 ∷ v / 2 ^ 16 % 256 ∷ v / 2 ^ 8 % 256 ∷ v % 256 ∷ []

-- What `put` of `opaque` appends: the length, the bytes, and zeros up to a multiple of four.
abbrev pub opaque_bytes : List ℕ → List ℕ
opaque_bytes s = be32 (length s) ++ (s ++ replicate (pad4 (length s)) 0)

be-be32 : (v : ℕ) → v < 2 ^ 32 → be (be32 v) ≡ v
be-be32 v h = omega arith

bytes_flat-append : (xs ys : List ℕ) → bytes_flat (length xs) (xs ++ ys) ≡ some (xs, ys)
unfolding bytes_flat
bytes_flat-append xs ys =
    let fits : ltb (length (xs ++ ys)) (length xs) ≡ false = ground (arith, length-append xs ys) in
    rw (fits, take-append_eq xs ys, drop-append_eq xs ys)

pub u32_flat-be32 :
    (v : ℕ) (rest : List ℕ) → v < 2 ^ 32 → u32_flat (be32 v ++ rest) ≡ some (v, rest)
unfolding u32_flat
u32_flat-be32 v rest h = rw (bytes_flat-append (be32 v) rest, be-be32 v h)

opaque_fixed_flat-append :
    (s padding rest : List ℕ)
    → length padding ≡ pad4 (length s)
    → opaque_fixed_flat (length s) (s ++ (padding ++ rest)) ≡ some (s, rest)
unfolding opaque_fixed_flat
opaque_fixed_flat-append s padding rest h =
    rw (bytes_flat-append s (padding ++ rest), ← h, bytes_flat-append padding rest)

pub opaque_flat-opaque_bytes :
    (max : ℕ) (s rest : List ℕ)
    → length s ≤ max
    → length s < 2 ^ 32
    → opaque_flat max (opaque_bytes s ++ rest) ≡ some (s, rest)
unfolding opaque_flat
opaque_flat-opaque_bytes max s rest h small =
    let padding : List ℕ = replicate {A = ℕ} (pad4 (length s)) 0 in
    let fits : ltb max (length s) ≡ false = ground arith in
    let cut : opaque_bytes s ++ rest ≡ be32 (length s) ++ (s ++ (padding ++ rest)) =
      append_assoc (be32 (length s)) (s ++ padding) rest
      ∙ ap (λ (t : List ℕ). be32 (length s) ++ t) (append_assoc s padding rest) in
    rw (
      cut,
      u32_flat-be32 (length s) (s ++ (padding ++ rest)) small,
      fits,
      opaque_fixed_flat-append s padding rest (length-replicate (pad4 (length s)) 0),
    )

-- A chain that holds the encoding of a byte string of at most `max` and fewer than 2^32 bytes, cut
-- into segments anywhere: `opaque` reads the string back, and what comes after its padding is left.
pub opaque-written :
    (max : ℕ) (segs : List (List ℕ)) (s rest : List ℕ)
    → concat segs ≡ opaque_bytes s ++ rest
    → length s ≤ max
    → length s < 2 ^ 32
    → Agrees (opaque max (of_chain segs)) (some (s, rest))
opaque-written max segs s rest e fits small =
    let read = ap (opaque_flat max) e ∙ opaque_flat-opaque_bytes max s rest fits small in
    subst (Agrees (opaque max (of_chain segs))) read
      (opaque-Agrees max (of_chain segs) (of_chain-IsDec segs))
