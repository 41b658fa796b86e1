-- ===== src/Stream/Framing.antt =====
-- The records of RFC 5531 that src/transport/record_stream.cpp reads, described without its loop.
use mathlib.Core.List.{append_assoc}
use lightnfs.Prelude.{
  ℕ, zero, suc, ◌≡◌, ◌≤◌, ◌<◌, refl, ap, ◌∙◌, arith, ◌+◌, ◌^◌, ◌||◌, inr, Bool, true, false, List,
  ◌++◌, ltb, leb, if◌then◌else◌, length, length-append, take-append_eq, drop-append_eq,
}
use lightnfs.Xdr.Decode.{be}
use lightnfs.Stream.Read.{fragment_len, is_last, fragments}
use lightnfs.Stream.Flat.{read_flat}

abbrev pub IsByte : ℕ → Type 0
IsByte b = b < 256

-- A fragment: a header of four bytes, the number `mark` more than the length of the body, most
-- significant byte first, and the body, within the cap.
pub record IsFragment (max_fragment mark : ℕ) (hdr body : List ℕ) : Type 0 where
  pub four : length hdr ≡ 4
  pub states : be hdr ≡ mark + length body
  pub short : length body < 2 ^ 31
  pub allowed : length body ≤ max_fragment

-- `Framed n bytes r rest`: the bytes are `n` fragments and the bytes `rest` after them; of the
-- fragments just the last one has the top bit of its header; the bodies one after the other are `r`.
pub data Framed (max_fragment : ℕ) : ℕ → List ℕ → List ℕ → List ℕ → Type 0 where
  last :
      {bytes r rest : List ℕ} (hdr : List ℕ)
      → IsFragment max_fragment (2 ^ 31) hdr r
      → bytes ≡ hdr ++ (r ++ rest)
      → Framed max_fragment 1 bytes r rest
  more :
      {n : ℕ} {bytes r rest : List ℕ} (hdr body after others : List ℕ)
      → IsFragment max_fragment 0 hdr body
      → bytes ≡ hdr ++ (body ++ after)
      → r ≡ body ++ others
      → Framed max_fragment n after others rest
      → Framed max_fragment (suc n) bytes r rest

-- A record of at most 1024 fragments and `max_record` bytes at the start of the bytes.
pub record IsRecord (max_fragment max_record : ℕ) (bytes r rest : List ℕ) : Type 0 where
  pub count : ℕ
  pub few : count ≤ 1024
  pub framed : Framed max_fragment count bytes r rest
  pub allowed : length r ≤ max_record

read_flat-append : (a b : List ℕ) (n : ℕ) → length a ≡ n → read_flat n (a ++ b) ≡ inr (a, b)
unfolding read_flat
read_flat-append a b n h =
    let fits : leb (length a) (length (a ++ b)) ≡ true = ground (arith, length-append a b) in
    rw (← h, fits, take-append_eq a b, drop-append_eq a b)

module _ (max_fragment max_record : ℕ) where
  -- Both caps hold for a fragment.
  not_capped :
      (len had : ℕ)
      → len ≤ max_fragment
      → had + len ≤ max_record
      → (ltb max_fragment len || ltb max_record (had + len)) ≡ false
  not_capped len had h k = ground arith

  -- The loop on the first fragment.
  round :
      (left mark : ℕ) (acc hdr body after : List ℕ) (b : Bool)
      → IsFragment max_fragment mark hdr body
      → fragment_len hdr ≡ length body
      → is_last hdr ≡ b
      → length acc + length body ≤ max_record
      → fragments read_flat max_fragment max_record (suc left) acc (hdr ++ (body ++ after)) ≡ (
          if b
          then inr (acc ++ body, after)
          else fragments read_flat max_fragment max_record left (acc ++ body) after)
  unfolding fragments
  round left mark acc hdr body after b f len mark_bit room = rw (
    read_flat-append hdr (body ++ after) 4 f.four,
    len,
    not_capped (length body) (length acc) f.allowed room,
    read_flat-append body after (length body) refl,
    mark_bit,
  )

  pub Framed-fragments :
      (n left : ℕ) (acc bytes r rest : List ℕ)
      → Framed max_fragment n bytes r rest
      → n ≤ left
      → length acc + length r ≤ max_record
      → fragments read_flat max_fragment max_record left acc bytes ≡ inr (acc ++ r, rest)
  Framed-fragments n zero acc bytes r rest (last hdr f e) h k =
      let bad : ⊥ = omega (arith, h) in absurd bad
  Framed-fragments n (suc left) acc bytes r rest (last hdr f e) h k =
      let len : fragment_len hdr ≡ length r = omega (arith, f.states, f.short) in
      let mark : is_last hdr ≡ true = let s = f.states in ground arith in
      rw e (round left (2 ^ 31) acc hdr r rest true f len mark k)
  Framed-fragments n zero acc bytes r rest (more hdr body after others f e er d) h k =
      let bad : ⊥ = omega (arith, h) in absurd bad
  Framed-fragments (suc n) (suc left) acc bytes r rest (more hdr body after others f e er d) h k =
      let len : fragment_len hdr ≡ length body = omega (arith, f.states, f.short) in
      let mark : is_last hdr ≡ false = let s = f.states in let t = f.short in ground arith in
      let total : length r ≡ length body + length others =
        ap length er ∙ length-append body others in
      let room : length acc + length body ≤ max_record = omega (arith, total, k) in
      let later : length (acc ++ body) + length others ≤ max_record =
        omega (arith, total, k, length-append acc body) in
      rw (e, er)
        (round left 0 acc hdr body after false f len mark room
          ∙ Framed-fragments n left (acc ++ body) after others rest d (omega (arith, h)) later
          ∙ ap (λ (t : List ℕ). inr (t, rest)) (append_assoc acc body others))
