-- ===== src/Stream/Bounds.antt =====
-- The size of a record that src/transport/record_stream.cpp accepts.
use lightnfs.Prelude.{
  ℕ, zero, suc, ◌≡◌, ◌≤◌, refl, arith, ◌+◌, ◌-◌, ◌||◌, inl, inr, Bool, true, false, List, [], ◌∷◌,
  ◌++◌, ltb, leb, if◌then◌else◌, length, length-append, length-take, take, Bool-cases,
}
use lightnfs.Stream.Read.{
  Recv, got, retry, eof, fails, Stream, Outcome, and_then, after_bytes, read_bytes, eof_as_badmsg,
  fragment_len, is_last, fragments, read_stream, read_record,
}

-- A success has `n` bytes, or at most `n`.
abbrev IsExact : ℕ → Outcome Stream → Type 0
IsExact n (inl e) = Unit {0}
IsExact n (inr r) = length r.0 ≡ n

abbrev pub IsBounded : ℕ → Outcome Stream → Type 0
IsBounded n (inl e) = Unit {0}
IsBounded n (inr r) = length r.0 ≤ n

after_bytes-IsExact :
    (need : ℕ) (avail : List ℕ) (r : Outcome Stream)
    → leb need (length avail) ≡ false
    → IsExact (need - length avail) r
    → IsExact need (after_bytes avail r)
after_bytes-IsExact need avail (inl e) h k = tt
after_bytes-IsExact need avail (inr r) h k =
    let less : length avail ≤ need = ground arith in omega (arith, length-append avail r.0, k, less)

took :
    (need : ℕ) (avail : List ℕ) → leb need (length avail) ≡ true → length (take need avail) ≡ need
took need avail h =
    let fits : need ≤ length avail = ground arith in omega (arith, length-take need avail, fits)

read_bytes-IsExact :
    (input : List Recv) (need : ℕ) (avail : List ℕ) → IsExact need (read_bytes need avail input)
unfolding read_bytes
read_bytes-IsExact [] need avail = elim (Bool-cases (leb need (length avail))) [
  | inl b ↦ rw b (took need avail b)
  | inr b ↦ rw b tt
]
read_bytes-IsExact (got bytes ∷ input) need avail = elim (Bool-cases (leb need (length avail))) [
  | inl b ↦ rw b (took need avail b)
  | inr b ↦ rw b (
      after_bytes-IsExact need avail (read_bytes (need - length avail) bytes input) b
        (read_bytes-IsExact input (need - length avail) bytes))
]
read_bytes-IsExact (retry ∷ input) need avail = elim (Bool-cases (leb need (length avail))) [
  | inl b ↦ rw b (took need avail b)
  | inr b ↦ rw b (
      after_bytes-IsExact need avail (read_bytes (need - length avail) [] input) b
        (read_bytes-IsExact input (need - length avail) []))
]
read_bytes-IsExact (eof ∷ input) need avail = elim (Bool-cases (leb need (length avail))) [
  | inl b ↦ rw b (took need avail b)
  | inr b ↦ rw b tt
]
read_bytes-IsExact (fails e ∷ input) need avail = elim (Bool-cases (leb need (length avail))) [
  | inl b ↦ rw b (took need avail b)
  | inr b ↦ rw b tt
]

eof_as_badmsg-IsExact : (n : ℕ) (r : Outcome Stream) → IsExact n r → IsExact n (eof_as_badmsg r)
eof_as_badmsg-IsExact n (inl e) h = tt
eof_as_badmsg-IsExact n (inr r) h = h

and_then-IsBounded :
    (n m : ℕ) (r : Outcome Stream) (f : List ℕ → Stream → Outcome Stream)
    → IsExact n r
    → ((a : List ℕ) (s : Stream) → length a ≡ n → IsBounded m (f a s))
    → IsBounded m (and_then r f)
and_then-IsBounded n m (inl e) f h k = tt
and_then-IsBounded n m (inr r) f h k = k r.0 r.1 h

test-IsBounded :
    (m : ℕ) (b : Bool) (r r' : Outcome Stream)
    → IsBounded m r
    → (b ≡ false → IsBounded m r')
    → IsBounded m (if b then r else r')
test-IsBounded m true r r' h k = h
test-IsBounded m false r r' h k = k refl

module _ (max_fragment max_record : ℕ) where
  fragments-IsBounded :
      (left : ℕ) (rec : List ℕ) (s : Stream)
      → IsBounded max_record (fragments read_stream max_fragment max_record left rec s)
  unfolding fragments
  fragments-IsBounded zero rec s =
      and_then-IsBounded 4 max_record _ _ (read_bytes-IsExact s.input 4 s.avail) λ hdr s h. tt
  fragments-IsBounded (suc left) rec s =
      and_then-IsBounded 4 max_record _ _ (read_bytes-IsExact s.input 4 s.avail) λ hdr s h.
        test-IsBounded max_record
          (ltb max_fragment (fragment_len hdr) || ltb max_record (length rec + fragment_len hdr)) _
          _ tt
          λ small.
            and_then-IsBounded (fragment_len hdr) max_record _ _
              (eof_as_badmsg-IsExact (fragment_len hdr) _
                (read_bytes-IsExact s.input (fragment_len hdr) s.avail))
              λ body s size.
                let fits : length rec + fragment_len hdr ≤ max_record = ground arith in
                test-IsBounded max_record (is_last hdr) _ _
                  (omega (arith, length-append rec body, size, fits))
                  λ more. fragments-IsBounded left (rec ++ body) s

  -- Whatever `recv` gives, a record that `read_record` accepts has at most `max_record` bytes.
  pub read_record-IsBounded :
      (s : Stream) → IsBounded max_record (read_record max_fragment max_record s)
  unfolding read_record
  read_record-IsBounded s = fragments-IsBounded 1024 [] s
