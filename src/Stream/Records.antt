-- ===== src/Stream/Records.antt =====
-- The records of src/transport/record_stream.cpp, and those of the plain bytes.
use lightnfs.Prelude.{
  ℕ, zero, suc, ◌≡◌, ◌↔◌, ◌∙◌, refl, ap, ◌+◌, ◌||◌, inl, inr, Bool, true, false, List, [], ◌++◌,
  ltb, ◌==◌, if◌then◌else◌, length, All, arith,
}
use lightnfs.Errmap.Errno
use lightnfs.Stream.Read.{
  Stream, Outcome, and_then, eof_as_badmsg, fragment_len, is_last, fragments, read_stream,
  read_record,
}
use lightnfs.Stream.Framing.{IsByte, IsRecord, Framed-fragments}
use lightnfs.Stream.Found.{inl-inr, inr_inj, fragments-Found}
use lightnfs.Stream.Flat.{IsQuiet, all_bytes, read_flat, Same, read_bytes-Same}

and_then-Same :
    (r : Outcome Stream) (p : Outcome (List ℕ))
    → (f : List ℕ → Stream → Outcome Stream) (g : List ℕ → List ℕ → Outcome (List ℕ)) → Same r p
    → ((a : List ℕ) (s : Stream) → All IsQuiet s.input → Same (f a s) (g a (all_bytes s)))
    → Same (and_then r f) (and_then p g)
and_then-Same (inl e) (inl d) f g h k = h
and_then-Same (inl e) (inr q) f g h k = absurd h
and_then-Same (inr r) (inl d) f g h k = absurd h
and_then-Same (inr (a, s)) (inr (b, bytes)) f g h k = rw (← h.0, ← h.1) (k a s h.2)

eof_as_badmsg-Same :
    (r : Outcome Stream) (p : Outcome (List ℕ))
    → Same r p
    → Same (eof_as_badmsg r) (eof_as_badmsg p)
eof_as_badmsg-Same (inl e) (inl d) h = ap (λ (x : ℕ). if x == Errno.eof then Errno.ebadmsg else x) h
eof_as_badmsg-Same (inl e) (inr q) h = absurd h
eof_as_badmsg-Same (inr r) (inl d) h = absurd h
eof_as_badmsg-Same (inr r) (inr q) h = h

test-Same :
    (b : Bool) (r r' : Outcome Stream) (p p' : Outcome (List ℕ))
    → Same r p
    → Same r' p'
    → Same (if b then r else r') (if b then p else p')
test-Same true r r' p p' h k = h
test-Same false r r' p p' h k = k

module _ (max_fragment max_record : ℕ) where
  fragments-Same :
      (left : ℕ) (rec : List ℕ) (s : Stream)
      → All IsQuiet s.input
      → Same
          (fragments read_stream max_fragment max_record left rec s)
          (fragments read_flat max_fragment max_record left rec (all_bytes s))
  unfolding fragments
  fragments-Same zero rec s q =
      and_then-Same _ _ _ _ (read_bytes-Same s.input 4 s.avail q) λ hdr s q. refl
  fragments-Same (suc left) rec s q =
      and_then-Same _ _ _ _ (read_bytes-Same s.input 4 s.avail q) λ hdr s q.
        test-Same
          (ltb max_fragment (fragment_len hdr) || ltb max_record (length rec + fragment_len hdr)) _
          _ _ _ refl
          (and_then-Same _ _ _ _
            (eof_as_badmsg-Same _ _ (read_bytes-Same s.input (fragment_len hdr) s.avail q))
            λ body s q.
              test-Same (is_last hdr) _ _ _ _ (refl, refl, q)
                (fragments-Same left (rec ++ body) s q))

  -- The record in plain bytes.
  unfoldable pub record_flat : List ℕ → Outcome (List ℕ)
  unfolding fragments read_flat
  record_flat bytes = fragments read_flat max_fragment max_record 1024 [] bytes

  pub read_record-Same :
      (s : Stream)
      → All IsQuiet s.input
      → Same (read_record max_fragment max_record s) (record_flat (all_bytes s))
  unfolding read_record record_flat
  read_record-Same s q = fragments-Same 1024 [] s q

  -- A success with this record, that leaves these bytes in the stream.
  abbrev pub Gives : Outcome Stream → List ℕ → List ℕ → Type 0
  Gives (inl e) r rest = ⊥
  Gives (inr out) r rest = (out.0 ≡ r) × (all_bytes out.1 ≡ rest)

  Same-Gives :
      (o : Outcome Stream) (p : Outcome (List ℕ)) (r rest : List ℕ)
      → Same o p
      → Gives o r rest ↔ (p ≡ inr (r, rest))
  Same-Gives (inl e) (inl d) r rest h = (λ k. absurd k, λ k. absurd (inl-inr k))
  Same-Gives (inl e) (inr q) r rest h = absurd h
  Same-Gives (inr o) (inl d) r rest h = absurd h
  Same-Gives (inr o) (inr (a, b)) r rest (ha, hb, q) = (
    λ (ka, kb). rw (← ha, ← hb, ka, kb),
    λ k. let (ea, eb) = inr_inj _ a b r rest refl k in (ha ∙ ea, hb ∙ eb),
  )

  record_flat-IsRecord :
      (bytes r rest : List ℕ)
      → All IsByte bytes
      → (record_flat bytes ≡ inr (r, rest)) ↔ IsRecord max_fragment max_record bytes r rest
  unfolding record_flat
  record_flat-IsRecord bytes r rest h = (
    λ k.
        let found = fragments-Found max_fragment max_record 1024 [] bytes r rest h k in
        rw (found.joined) (record {
          count = found.count;
          few = found.few;
          framed = found.framed;
          allowed = omega (arith, found.allowed);
        }),
    λ k.
        Framed-fragments max_fragment max_record k.count 1024 [] bytes r rest k.framed k.few
          (omega (arith, k.allowed)),
  )

  -- As long as `recv` gives bytes, however few at a time, or is interrupted, and the numbers in the
  -- stream are bytes, `read_record` gives a record and leaves the bytes after it exactly when the
  -- bytes of the stream begin with that record: at most 1024 fragments, each a header of four bytes
  -- that states its length, below 2^31, and a body within the cap on a fragment, just the last of them
  -- with the top bit of its header; the record is the bodies in order and within the cap on a record.
  pub read_record-IsRecord :
      (s : Stream) (r rest : List ℕ)
      → All IsQuiet s.input
      → All IsByte (all_bytes s)
      → Gives (read_record max_fragment max_record s) r rest
        ↔ IsRecord max_fragment max_record (all_bytes s) r rest
  read_record-IsRecord s r rest q h =
      let (to, from) =
        Same-Gives (read_record max_fragment max_record s) (record_flat (all_bytes s)) r rest
          (read_record-Same s q) in
      let (up, down) = record_flat-IsRecord (all_bytes s) r rest h in
      (λ k. up (to k), λ k. from (down k))
