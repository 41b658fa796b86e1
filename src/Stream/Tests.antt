-- ===== src/Stream/Tests.antt =====
-- A record in two fragments, as src/transport/record_stream.cpp reads it.
use lightnfs.Prelude.{◌≡◌, ◌↔◌, refl, All, arith, inl, inr, [], ◌∷◌}
use lightnfs.Stream.Read.{got, retry, Stream, read_record}
use lightnfs.Stream.Flat.{all_bytes}
use lightnfs.Stream.Bounds.{IsBounded, read_record-IsBounded}
use lightnfs.Stream.Framing.{IsByte, IsRecord}
use lightnfs.Stream.Records.{record_flat, Gives, read_record-IsRecord}

-- The record 7, 8, 9 in fragments of two and one bytes, cut inside a header and a body, and the start
-- of the next record.
abbrev a_stream : Stream
a_stream = record {
  avail = 0 ∷ [];
  input =
      got (0 ∷ 0 ∷ 2 ∷ 7 ∷ []) ∷ retry ∷ got (8 ∷ 128 ∷ 0 ∷ []) ∷ got (0 ∷ 1 ∷ 9 ∷ 128 ∷ []) ∷ [];
}

a_stream-bytes : All IsByte (all_bytes a_stream)
a_stream-bytes = ground arith

found : record_flat 16 3 (all_bytes a_stream) ≡ inr (7 ∷ 8 ∷ 9 ∷ [], 128 ∷ [])
unfolding record_flat
found = refl

-- With a record cap of two bytes the second fragment is refused.
capped : record_flat 16 2 (all_bytes a_stream) ≡ inl 90
unfolding record_flat
capped = refl

read_record-IsRecord_example :
    Gives 16 3 (read_record 16 3 a_stream) (7 ∷ 8 ∷ 9 ∷ []) (128 ∷ [])
    ↔ IsRecord 16 3 (all_bytes a_stream) (7 ∷ 8 ∷ 9 ∷ []) (128 ∷ [])
read_record-IsRecord_example =
    read_record-IsRecord 16 3 a_stream (7 ∷ 8 ∷ 9 ∷ []) (128 ∷ []) (tt, (tt, (tt, (tt, tt))))
      a_stream-bytes

read_record-IsBounded_example : IsBounded 3 (read_record 16 3 a_stream)
read_record-IsBounded_example = read_record-IsBounded 16 3 a_stream
