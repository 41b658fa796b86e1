-- ===== src/Stream/Read.antt =====
-- `RecordStream::read_record` of src/transport/record_stream.cpp without TLS, over the results of the
-- system's `recv`.
use lightnfs.Prelude.{
  ℕ, zero, suc, Bool, ◌+◌, ◌-◌, ◌%◌, ◌^◌, ◌||◌, ◌⊎◌, inl, inr, List, [], ◌∷◌, ◌++◌, ltb, leb, ◌==◌,
  if◌then◌else◌, length, take, drop,
}
use lightnfs.Errmap.Errno
use lightnfs.Xdr.Decode.{be}

-- What `recv` gives: bytes, at least one; EINTR or EAGAIN; the end of the stream; or an error.
pub data Recv : Type 0 where
  got : List ℕ → Recv
  retry eof : Recv
  fails : ℕ → Recv

-- `avail` is the buffer between `roff_` and `rend_`. After the last result comes the end.
pub record Stream : Type 0 where
  pub avail : List ℕ
  pub input : List Recv

-- An error number, or a value and the stream after it.
abbrev pub Outcome : Type 0 → Type 0
Outcome S = ℕ ⊎ (List ℕ × S)

abbrev pub and_then : {S : Type 0} → Outcome S → (List ℕ → S → Outcome S) → Outcome S
and_then (inl e) f = inl e
and_then (inr r) f = f r.0 r.1

abbrev pub after_bytes : {S : Type 0} → List ℕ → Outcome S → Outcome S
after_bytes bytes (inl e) = inl e
after_bytes bytes (inr r) = inr (bytes ++ r.0, r.1)

-- The loops of `read_be32` and of `read_record` that take bytes and fill the buffer.
unfoldable pub read_bytes : ℕ → List ℕ → List Recv → Outcome Stream
read_bytes need avail [] =
    if leb need (length avail)
    then inr (take need avail, record { avail = drop need avail; input = [] })
    else inl Errno.eof
read_bytes need avail (x ∷ input) =
    let more : Outcome Stream = elim x [
      | got bytes ↦ after_bytes avail (read_bytes (need - length avail) bytes input)
      | retry ↦ after_bytes avail (read_bytes (need - length avail) [] input)
      | eof ↦ inl Errno.eof
      | fails e ↦ inl e
    ] in
    if leb need (length avail)
    then inr (take need avail, record { avail = drop need avail; input = x ∷ input })
    else more

abbrev pub eof_as_badmsg : {S : Type 0} → Outcome S → Outcome S
eof_as_badmsg (inl e) = inl (if e == Errno.eof then Errno.ebadmsg else e)
eof_as_badmsg (inr r) = inr r

-- The length of a fragment and whether it is the last one.
abbrev pub fragment_len : List ℕ → ℕ
fragment_len hdr = be hdr % 2 ^ 31

abbrev pub is_last : List ℕ → Bool
is_last hdr = leb (2 ^ 31) (be hdr)

-- The rounds of `read_record`: `left` more fragments may come, of the 1024 in all. The readers of a
-- header and of a body are those of a stream; of plain bytes they are used below.
module _ {S : Type 0} (read : ℕ → S → Outcome S) (max_fragment max_record : ℕ) where
  unfoldable pub fragments : ℕ → List ℕ → S → Outcome S
  fragments zero rec s = and_then (read 4 s) λ hdr s. inl Errno.emsgsize
  fragments (suc left) rec s = and_then (read 4 s) λ hdr s.
      let len = fragment_len hdr in
      if ltb max_fragment len || ltb max_record (length rec + len)
      then inl Errno.emsgsize
      else and_then (eof_as_badmsg (read len s)) λ body s.
        let next = fragments left (rec ++ body) s in
        if is_last hdr then inr (rec ++ body, s) else next

abbrev pub read_stream : ℕ → Stream → Outcome Stream
read_stream need s = read_bytes need s.avail s.input

unfoldable pub read_record : ℕ → ℕ → Stream → Outcome Stream
unfolding read_bytes fragments
read_record max_fragment max_record s = fragments read_stream max_fragment max_record 1024 [] s
