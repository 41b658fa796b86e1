-- ===== src/Xdr/Suffix.antt =====
-- What a reader of plain bytes leaves is the end of what it was given.
use mathlib.Core.List.{append_assoc}
use lightnfs.Prelude.{
  ℕ, ◌≡◌, refl, sym, ap, ◌∙◌, ◌-◌, arith, Bool, true, false, Option, none, some, List, ◌++◌, [],
  ltb, if◌then◌else◌, length, length-append, take, drop, ◌>>=◌, take-append-drop, drop-append_eq,
}
use lightnfs.Xdr.Decode.{pad4}
use lightnfs.Xdr.Flat.{bytes_flat, u32_flat, opaque_fixed_flat, opaque_flat}

abbrev pub Suffix : {A : Type 0} → List ℕ → Option (A × List ℕ) → Type 0
Suffix b none = Unit {0}
Suffix b (some r) = (read : List ℕ) × (b ≡ read ++ r.1)

Suffix_after :
    {B : Type 0} (b read rest : List ℕ) (q : Option (B × List ℕ))
    → b ≡ read ++ rest
    → Suffix rest q
    → Suffix b q
Suffix_after b read rest none e h = tt
Suffix_after b read rest (some r) e (more, f) =
    (read ++ more, e ∙ ap (λ (t : List ℕ). read ++ t) f ∙ sym (append_assoc read more r.1))

pub bind-Suffix :
    {A : Type 0} {B : Type 0} (b : List ℕ) (p : Option (A × List ℕ))
    (g : A × List ℕ → Option (B × List ℕ))
    → Suffix b p
    → ((a : A) (rest : List ℕ) → Suffix rest (g (a, rest)))
    → Suffix b (p >>= g)
bind-Suffix b none g h k = tt
bind-Suffix b (some (a, rest)) g (read, e) k = Suffix_after b read rest (g (a, rest)) e (k a rest)

pub test-Suffix :
    {A : Type 0} (b : List ℕ) (c : Bool) (p : Option (A × List ℕ))
    → Suffix b p
    → Suffix b (if c then none else p)
test-Suffix b true p h = tt
test-Suffix b false p h = h

bytes_flat-Suffix : (n : ℕ) (b : List ℕ) → Suffix b (bytes_flat n b)
unfolding bytes_flat
bytes_flat-Suffix n b =
    test-Suffix b (ltb (length b) n) (some (take n b, drop n b))
      (take n b, sym (take-append-drop n b))

pub u32_flat-Suffix : (b : List ℕ) → Suffix b (u32_flat b)
unfolding u32_flat
u32_flat-Suffix b = bind-Suffix _ _ _ (bytes_flat-Suffix 4 b) (λ p rest. ([], refl))

opaque_fixed_flat-Suffix : (n : ℕ) (b : List ℕ) → Suffix b (opaque_fixed_flat n b)
unfolding opaque_fixed_flat
opaque_fixed_flat-Suffix n b =
    bind-Suffix _ _ _ (bytes_flat-Suffix n b)
      (λ p rest. bind-Suffix _ _ _ (bytes_flat-Suffix (pad4 n) rest) (λ padding after. ([], refl)))

pub opaque_flat-Suffix : (max : ℕ) (b : List ℕ) → Suffix b (opaque_flat max b)
unfolding opaque_flat
opaque_flat-Suffix max b = bind-Suffix _ _ _ (u32_flat-Suffix b) (λ len rest.
    test-Suffix rest (ltb max len) (opaque_fixed_flat len rest) (opaque_fixed_flat-Suffix len rest))

-- Where the rest begins.
pub drop-Suffix : (b read rest : List ℕ) → b ≡ read ++ rest → drop (length b - length rest) b ≡ rest
drop-Suffix b read rest e =
    let behind : length b - length rest ≡ length read =
      omega (arith, ap length e, length-append read rest) in
    ap (λ (k : ℕ). drop k b) behind ∙ ap (drop (length read)) e ∙ drop-append_eq read rest
