-- ===== src/Xdr/Decode.antt =====
-- `XdrDec` of src/xdr/xdr.hpp.
use lightnfs.Prelude.{
  ℕ, ◌+◌, ◌-◌, ◌*◌, ◌%◌, Bool, Option, none, some, List, [], ◌∷◌, ◌++◌, ltb, leb, ◌==◌,
  if◌then◌else◌, length, take, drop, ◌>>=◌,
}

-- What is decoded: the segments of a chain from the current one on, or flat memory.
pub data Source : Type 0 where
  chain : List (List ℕ) → Source
  flat : List ℕ → Source

-- `off` is the offset in the current segment, or in the flat memory.
pub record XdrDec : Type 0 where
  pub source : Source
  pub off : ℕ
  pub remaining : ℕ

abbrev pub concat : List (List ℕ) → List ℕ
concat [] = []
concat (s ∷ segs) = s ++ concat segs

abbrev pub of_chain : List (List ℕ) → XdrDec
of_chain segs = record { source = chain segs; off = 0; remaining = length (concat segs) }

abbrev pub of_flat : List ℕ → XdrDec
of_flat bytes = record { source = flat bytes; off = 0; remaining = length bytes }

-- Empty and finished segments are skipped.
unfoldable pub skip_finished : ℕ → List (List ℕ) → ℕ × List (List ℕ)
skip_finished off [] = (off, [])
skip_finished off (s ∷ segs) =
    let rest = skip_finished 0 segs in if off == length s then rest else (off, s ∷ segs)

-- The loop that gathers bytes over several segments. It does not run past the last segment.
unfoldable pub gather : ℕ → ℕ → List (List ℕ) → List ℕ × ℕ × List (List ℕ)
gather need off [] = ([], off, [])
gather need off (s ∷ segs) =
    let avail = length s - off in
    let rest = gather (need - avail) 0 segs in
    if leb need avail
    then (take need (drop off s), off + need, s ∷ segs)
    else (drop off s ++ rest.0, rest.1, rest.2)

-- Bytes that one segment holds are not copied.
unfoldable pub fetch_segs : ℕ → ℕ × List (List ℕ) → List ℕ × ℕ × List (List ℕ)
unfolding gather
fetch_segs n (off, []) = ([], off, [])
fetch_segs n (off, s ∷ segs) =
    if leb n (length s - off)
    then (take n (drop off s), off + n, s ∷ segs)
    else gather n off (s ∷ segs)

unfoldable pub fetch : ℕ → ℕ → Source → List ℕ × ℕ × Source
unfolding skip_finished fetch_segs
fetch n off (flat bytes) = (take n (drop off bytes), off + n, flat bytes)
fetch n off (chain segs) = let r = fetch_segs n (skip_finished off segs) in (r.0, r.1, chain r.2)

unfoldable pub take_bytes : ℕ → XdrDec → Option (List ℕ × XdrDec)
unfolding fetch
take_bytes n d =
    if ltb d.remaining n
    then none
    else if n == 0
    then some ([], d)
    else let r = fetch n d.off d.source in
      some (r.0, record { source = r.2; off = r.1; remaining = d.remaining - n })

-- A big-endian number.
abbrev be_from : ℕ → List ℕ → ℕ
be_from acc [] = acc
be_from acc (b ∷ bytes) = be_from (acc * 256 + b) bytes

abbrev pub be : List ℕ → ℕ
be bytes = be_from 0 bytes

abbrev pub pad4 : ℕ → ℕ
pad4 n = (4 - n % 4) % 4

unfoldable pub u32 : XdrDec → Option (ℕ × XdrDec)
u32 d = do (p, d') ← take_bytes 4 d; some (be p, d')

unfoldable pub u64 : XdrDec → Option (ℕ × XdrDec)
u64 d = do (p, d') ← take_bytes 8 d; some (be p, d')

unfoldable pub boolean : XdrDec → Option (Bool × XdrDec)
unfolding u32
boolean d = do (v, d') ← u32 d; if ltb 1 v then none else some (v == 1, d')

unfoldable pub skip : ℕ → XdrDec → Option (Unit {0} × XdrDec)
skip n d = if n == 0 then some (tt, d) else do (p, d') ← take_bytes n d; some (tt, d')

unfoldable pub opaque_fixed : ℕ → XdrDec → Option (List ℕ × XdrDec)
unfolding skip
opaque_fixed n d = do (p, d') ← take_bytes n d; (done, d'') ← skip (pad4 n) d'; some (p, d'')

unfoldable pub opaque : ℕ → XdrDec → Option (List ℕ × XdrDec)
unfolding u32 opaque_fixed
opaque max d = do (len, d') ← u32 d; if ltb max len then none else opaque_fixed len d'
