-- ===== src/Xdr/Tests.antt =====
-- Byte strings of src/xdr/xdr.hpp over cut chains.
use lightnfs.Prelude.{ℕ, refl, arith, some, List, [], ◌∷◌}
use lightnfs.Xdr.Decode.{of_chain, opaque}
use lightnfs.Xdr.Flat.{Agrees, view, opaque_flat, of_chain-IsDec, opaque-Agrees}
use lightnfs.Xdr.Written.{opaque-written}

-- The string of bytes 7, 8, 9, padded, and one byte more.
abbrev cut : List (List ℕ)
cut = (0 ∷ 0 ∷ []) ∷ [] ∷ (0 ∷ 3 ∷ 7 ∷ []) ∷ (8 ∷ 9 ∷ 0 ∷ 5 ∷ []) ∷ []

opaque-written_example : Agrees (opaque 10 (of_chain cut)) (some (7 ∷ 8 ∷ 9 ∷ [], 5 ∷ []))
opaque-written_example =
    opaque-written 10 cut (7 ∷ 8 ∷ 9 ∷ []) (5 ∷ []) refl (omega arith) (omega arith)

opaque-Agrees_example : Agrees (opaque 2 (of_chain cut)) (opaque_flat 2 (view (of_chain cut)))
opaque-Agrees_example = opaque-Agrees 2 (of_chain cut) (of_chain-IsDec cut)
