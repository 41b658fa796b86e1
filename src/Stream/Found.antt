-- ===== src/Stream/Found.antt =====
-- The loop of src/transport/record_stream.cpp beside the records of RFC 5531: the lemmas.
use mathlib.Core.List.{append_assoc}
use mathlib.Core.Path.{subst}
use lightnfs.Prelude.{
  ℕ, zero, suc, ◌≡◌, ◌≤◌, ◌<◌, refl, sym, ap, ◌∙◌, arith, ◌+◌, ◌^◌, ◌||◌, inl, inr, List, [], ◌∷◌,
  ◌++◌, ltb, leb, if◌then◌else◌, length, length-append, length-take, take, drop, take-append-drop,
  All, Bool-cases,
}
use lightnfs.Xdr.Decode.{be}
use lightnfs.Stream.Read.{Outcome, and_then, eof_as_badmsg, fragment_len, is_last, fragments}
use lightnfs.Stream.Flat.{read_flat}
use lightnfs.Stream.Framing.{IsByte, IsFragment, Framed, last, more}

be-lt : (hdr : List ℕ) → length hdr ≡ 4 → All IsByte hdr → be hdr < 2 ^ 32
be-lt [] h k = let bad : ⊥ = omega arith in absurd bad
be-lt (a ∷ []) h k = let bad : ⊥ = omega arith in absurd bad
be-lt (a ∷ b ∷ []) h k = let bad : ⊥ = omega arith in absurd bad
be-lt (a ∷ b ∷ c ∷ []) h k = let bad : ⊥ = omega arith in absurd bad
be-lt (a ∷ b ∷ c ∷ d ∷ []) (h) (ka, (kb, (kc, (kd, k)))) = omega (arith, ka, kb, kc, kd)
be-lt (a ∷ b ∷ c ∷ d ∷ e ∷ hdr) h k = let bad : ⊥ = omega arith in absurd bad

-- What was read stood there.
read_flat-took :
    (n : ℕ) (bytes a b : List ℕ)
    → read_flat n bytes ≡ inr (a, b)
    → (bytes ≡ a ++ b) × (length a ≡ n)
unfolding read_flat
read_flat-took n bytes a b h = elim (Bool-cases (leb n (length bytes))) [
  | inl q ↦
      let k = rw q at h in
      let ea : take n bytes ≡ a = cc in
      let eb : drop n bytes ≡ b = cc in
      (
        rw (← ea, ← eb) (sym (take-append-drop n bytes)),
        rw (← ea) (
            let fits : n ≤ length bytes = ground arith in omega (arith, length-take n bytes, fits)),
      )
  | inr q ↦ let k = rw q at h in let bad : ⊥ = cc in absurd bad
]

pub inl-inr : {e : ℕ} {x : List ℕ × List ℕ} → inl e ≡ inr x → ⊥
inl-inr h = cc

pub inr_inj :
    (o : Outcome (List ℕ)) (a s b t : List ℕ) → o ≡ inr (a, s) → o ≡ inr (b, t) → (a ≡ b) × (s ≡ t)
inr_inj o a s b t h k = (cc, cc)

-- A success has read its step, and goes on from there.
passed_inv :
    (o : Outcome (List ℕ)) (f : List ℕ → List ℕ → Outcome (List ℕ)) (x : List ℕ × List ℕ)
    → and_then o f ≡ inr x
    → (a : List ℕ) × (s : List ℕ) × (o ≡ inr (a, s)) × (f a s ≡ inr x)
passed_inv (inl e) f x h = absurd (inl-inr h)
passed_inv (inr (a, s)) f x h = (a, s, refl, h)

eof_as_badmsg_inv :
    (o : Outcome (List ℕ)) (x : List ℕ × List ℕ) → eof_as_badmsg o ≡ inr x → o ≡ inr x
eof_as_badmsg_inv (inl e) x h = absurd (inl-inr h)
eof_as_badmsg_inv (inr y) x h = h

All-parts : (a b : List ℕ) → All IsByte (a ++ b) → All IsByte a × All IsByte b
All-parts [] b h = (tt, h)
All-parts (x ∷ a) b h = let (ka, kb) = All-parts a b h.1 in ((h.0, ka), kb)

module _ (max_fragment max_record : ℕ) where
  -- What the loop has found after `acc`.
  pub record Found (left : ℕ) (acc bytes out rest : List ℕ) : Type 0 where
    pub count : ℕ
    pub body : List ℕ
    pub few : count ≤ left
    pub joined : out ≡ acc ++ body
    pub framed : Framed max_fragment count bytes body rest
    pub allowed : length acc + length body ≤ max_record

  -- A fragment in front of what the later rounds have found.
  more-Found :
      {left : ℕ} {acc bytes out rest : List ℕ} (hdr body after : List ℕ)
      → IsFragment max_fragment 0 hdr body
      → bytes ≡ hdr ++ (body ++ after)
      → Found left (acc ++ body) after out rest
      → Found (suc left) acc bytes out rest
  more-Found {acc = acc} hdr body after f split found = record {
    count = suc found.count;
    body = body ++ found.body;
    few = omega (arith, found.few);
    joined = found.joined ∙ append_assoc acc body found.body;
    framed = more hdr body after found.body f split refl found.framed;
    allowed = omega (arith, found.allowed, length-append acc body, length-append body found.body);
  }

  -- A round that has read its header and its body.
  read-Found :
      (left : ℕ) (acc bytes out rest hdr body after : List ℕ)
      → bytes ≡ hdr ++ (body ++ after)
      → length hdr ≡ 4
      → be hdr < 2 ^ 32
      → length body ≡ fragment_len hdr
      → length body ≤ max_fragment
      → length acc + length body ≤ max_record
      → (if is_last hdr
          then inr (acc ++ body, after)
          else fragments read_flat max_fragment max_record left (acc ++ body) after)
        ≡ inr (out, rest)
      → (fragments read_flat max_fragment max_record left (acc ++ body) after ≡ inr (out, rest)
          → Found left (acc ++ body) after out rest)
      → Found (suc left) acc bytes out rest
  read-Found left acc bytes out rest hdr body after split four small len allowed room h later =
      elim (Bool-cases (is_last hdr)) [
        | inl l ↦
            let (joined, same) = inr_inj _ (acc ++ body) after out rest refl (rw l at h) in
            let f : IsFragment max_fragment (2 ^ 31) hdr body = record {
              four = four;
              states = ground (arith, len, small);
              short = omega (arith, len);
              allowed = allowed;
            } in
            record {
              count = 1;
              body = body;
              few = omega arith;
              joined = sym joined;
              framed = last hdr f (rw (← same) split);
              allowed = room;
            }
        | inr l ↦
            let f : IsFragment max_fragment 0 hdr body = record {
              four = four;
              states = ground (arith, len, small);
              short = omega (arith, len);
              allowed = allowed;
            } in
            more-Found hdr body after f split (later (rw l at h))
      ]

  pub fragments-Found :
      (left : ℕ) (acc bytes out rest : List ℕ)
      → All IsByte bytes
      → fragments read_flat max_fragment max_record left acc bytes ≡ inr (out, rest)
      → Found left acc bytes out rest
  unfolding fragments
  fragments-Found zero acc bytes out rest h k =
      let (hdr, s, read_hdr, capped) = passed_inv (read_flat 4 bytes) _ (out, rest) k in
      absurd (inl-inr capped)
  fragments-Found (suc left) acc bytes out rest h k =
      let (hdr, s, read_hdr, k2) = passed_inv (read_flat 4 bytes) _ (out, rest) k in
      elim (Bool-cases
        (ltb max_fragment (fragment_len hdr) || ltb max_record (length acc + fragment_len hdr))) [
          | inl q ↦ absurd (inl-inr (rw q at k2))
          | inr q ↦
              let (body, after, read_body, k3) =
                passed_inv (eof_as_badmsg (read_flat (fragment_len hdr) s)) _ (out, rest)
                  (rw q at k2) in
              let (at_hdr, four) = read_flat-took 4 bytes hdr s read_hdr in
              let (at_body, len) =
                read_flat-took (fragment_len hdr) s body after (eof_as_badmsg_inv _ _ read_body) in
              let split : bytes ≡ hdr ++ (body ++ after) = at_hdr ∙ ap (λ t. hdr ++ t) at_body in
              let parts = All-parts hdr (body ++ after) (subst (All IsByte) split h) in
              read-Found left acc bytes out rest hdr body after split four (be-lt hdr four parts.0)
                len (ground (arith, len)) (ground (arith, len)) k3
                (fragments-Found left (acc ++ body) after out rest (All-parts body after parts.1).1)
        ]
