-- ===== src/Stream/Flat.antt =====
-- The bytes that src/transport/record_stream.cpp takes from a stream, and those of the plain bytes.
use lightnfs.Prelude.{
  ℕ, ◌≡◌, ◌≤◌, refl, ap, sym, arith, ◌-◌, inl, inr, true, false, List, [], ◌∷◌, ◌++◌, leb,
  if◌then◌else◌, length, length-append, take, drop, take-append_le, take-append_ge, drop-append_le,
  drop-append_ge, Bool-cases, All,
}
use mathlib.Core.List.{append-nil}
use mathlib.Core.Path.{subst}
use lightnfs.Errmap.Errno
use lightnfs.Stream.Read.{Recv, got, retry, eof, fails, Stream, Outcome, after_bytes, read_bytes}

-- Results of `recv` that are neither errors nor the end.
abbrev pub IsQuiet : Recv → Type 0
IsQuiet (got bytes) = Unit {0}
IsQuiet retry = Unit {0}
IsQuiet eof = ⊥
IsQuiet (fails e) = ⊥

abbrev pub bytes_of : List Recv → List ℕ
bytes_of [] = []
bytes_of (got bytes ∷ input) = bytes ++ bytes_of input
bytes_of (retry ∷ input) = bytes_of input
bytes_of (eof ∷ input) = bytes_of input
bytes_of (fails e ∷ input) = bytes_of input

abbrev pub all_bytes : Stream → List ℕ
all_bytes s = s.avail ++ bytes_of s.input

unfoldable pub read_flat : ℕ → List ℕ → Outcome (List ℕ)
read_flat need bytes =
    if leb need (length bytes) then inr (take need bytes, drop need bytes) else inl Errno.eof

-- Both fail with one error, or both give one value, and the stream has the bytes that are left.
abbrev pub Same : Outcome Stream → Outcome (List ℕ) → Type 0
Same (inl e) (inl f) = e ≡ f
Same (inl e) (inr q) = ⊥
Same (inr r) (inl f) = ⊥
Same (inr r) (inr q) = (r.0 ≡ q.0) × (all_bytes r.1 ≡ q.1) × All IsQuiet r.1.input

enough-Same :
    (need : ℕ) (avail : List ℕ) (input : List Recv)
    → need ≤ length avail
    → All IsQuiet input
    → Same
        (inr (take need avail, record { avail = drop need avail; input = input }))
        (read_flat need (avail ++ bytes_of input))
unfolding read_flat
enough-Same need avail input h q =
    let fits : leb need (length (avail ++ bytes_of input)) ≡ true =
      ground (arith, length-append avail (bytes_of input)) in
    rw fits (
      sym (take-append_le need avail (bytes_of input) h),
      sym (drop-append_le need avail (bytes_of input) h),
      q,
    )

-- The buffer is used up, and the rest comes from the bytes after it.
read_flat-append :
    (need : ℕ) (avail rest : List ℕ)
    → length avail ≤ need
    → read_flat need (avail ++ rest) ≡ after_bytes avail (read_flat (need - length avail) rest)
unfolding read_flat
read_flat-append need avail rest h = elim (Bool-cases (leb (need - length avail) (length rest))) [
  | inl q ↦
      let fits : leb need (length (avail ++ rest)) ≡ true =
        ground (arith, length-append avail rest) in
      rw (q, fits, take-append_ge need avail rest h, drop-append_ge need avail rest h)
  | inr q ↦
      let short : leb need (length (avail ++ rest)) ≡ false =
        ground (arith, length-append avail rest) in
      rw (q, short)
]

after_bytes-Same :
    (avail : List ℕ) (r : Outcome Stream) (p : Outcome (List ℕ))
    → Same r p
    → Same (after_bytes avail r) (after_bytes avail p)
after_bytes-Same avail (inl e) (inl f) h = h
after_bytes-Same avail (inl e) (inr q) h = absurd h
after_bytes-Same avail (inr r) (inl f) h = absurd h
after_bytes-Same avail (inr r) (inr q) h = (ap (λ (t : List ℕ). avail ++ t) h.0, h.1, h.2)

short-Same :
    (need : ℕ) (avail : List ℕ)
    → leb need (length avail) ≡ false
    → Same (inl Errno.eof) (read_flat need avail)
unfolding read_flat
short-Same need avail h = rw h refl

more-Same :
    (need : ℕ) (avail rest : List ℕ) (r : Outcome Stream)
    → leb need (length avail) ≡ false
    → Same r (read_flat (need - length avail) rest)
    → Same (after_bytes avail r) (read_flat need (avail ++ rest))
more-Same need avail rest r h same =
    subst (Same (after_bytes avail r)) (sym (read_flat-append need avail rest (ground arith)))
      (after_bytes-Same avail r (read_flat (need - length avail) rest) same)

pub read_bytes-Same :
    (input : List Recv) (need : ℕ) (avail : List ℕ)
    → All IsQuiet input
    → Same (read_bytes need avail input) (read_flat need (avail ++ bytes_of input))
unfolding read_bytes
read_bytes-Same [] need avail q = elim (Bool-cases (leb need (length avail))) [
  | inl b ↦ rw b (enough-Same need avail [] (ground arith) tt)
  | inr b ↦ rw (b, append-nil avail) (short-Same need avail b)
]
read_bytes-Same (got bytes ∷ input) need avail q = elim (Bool-cases (leb need (length avail))) [
  | inl b ↦ rw b (enough-Same need avail (got bytes ∷ input) (ground arith) q)
  | inr b ↦ rw b (
      more-Same need avail (bytes ++ bytes_of input) (read_bytes (need - length avail) bytes input)
        b (read_bytes-Same input (need - length avail) bytes q.1))
]
read_bytes-Same (retry ∷ input) need avail q = elim (Bool-cases (leb need (length avail))) [
  | inl b ↦ rw b (enough-Same need avail (retry ∷ input) (ground arith) q)
  | inr b ↦ rw b (
      more-Same need avail (bytes_of input) (read_bytes (need - length avail) [] input) b
        (read_bytes-Same input (need - length avail) [] q.1))
]
read_bytes-Same (eof ∷ input) need avail q = absurd q.0
read_bytes-Same (fails e ∷ input) need avail q = absurd q.0
