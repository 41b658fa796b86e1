-- ===== src/Prelude/Bits.antt =====
-- Bit masks, as far as the code tests them.
use Prim.Native.Nat.{
  ℕ, zero, suc, ◌+◌, ◌-◌, ◌*◌, ◌/◌, ◌%◌, ◌^◌, ◌≤◌, ◌<◌, min, max, differ, bit_and, bit_or, bit_xor,
  digits, bit_and-bitwise, bit_or-bitwise, bit_xor-bitwise,
}
use mathlib.Core.Path.{◌≡◌, refl, sym, ◌∙◌}
use native.Mathlib.Omega.{arith}
use mathlib.Core.Bool.{Bool, not}
use lightnfs.Prelude.Tests.{◌==◌}

-- `(a & b) != 0`
abbrev pub any_bit : ℕ → ℕ → Bool
any_bit a b = not (bit_and a b == 0)

-- Operations digit by digit need no more fuel than their first number.
digits_enough :
    (z : ℕ → ℕ) (f : ℕ → ℕ → ℕ) (n m a b : ℕ) → a ≤ n → a ≤ m → digits z f n a b ≡ digits z f m a b
digits_enough z f zero zero a b p q = refl
digits_enough z f zero (suc m) zero b p q = refl
digits_enough z f zero (suc m) (suc a) b p q = absurd (omega arith)
digits_enough z f (suc n) zero zero b p q = refl
digits_enough z f (suc n) zero (suc a) b p q = absurd (omega arith)
digits_enough z f (suc n) (suc m) zero b p q = refl
digits_enough z f (suc n) (suc m) (suc a) b p q =
    omega (arith, digits_enough z f n m (suc a / 2) (b / 2) (omega arith) (omega arith))

and_of_zero : (b : ℕ) → bit_and 0 b ≡ 0
and_of_zero b = bit_and-bitwise 0 b

or_of_zero : (b : ℕ) → bit_or 0 b ≡ b
or_of_zero b = bit_or-bitwise 0 b

-- What the lowest digit is.
and_halves : (a b : ℕ) → bit_and a b ≡ bit_and (a / 2) (b / 2) * 2 + min (a % 2) (b % 2)
and_halves zero b = omega (arith, and_of_zero b, and_of_zero (b / 2))
and_halves (suc a) b = omega (
  arith,
  bit_and-bitwise (suc a) b,
  bit_and-bitwise (suc a / 2) (b / 2),
  digits_enough (λ b. zero) min a (suc a / 2) (suc a / 2) (b / 2) (omega arith) (omega arith),
)

or_halves : (a b : ℕ) → bit_or a b ≡ bit_or (a / 2) (b / 2) * 2 + max (a % 2) (b % 2)
or_halves zero b = omega (arith, or_of_zero b, or_of_zero (b / 2))
or_halves (suc a) b = omega (
  arith,
  bit_or-bitwise (suc a) b,
  bit_or-bitwise (suc a / 2) (b / 2),
  digits_enough (λ b. b) max a (suc a / 2) (suc a / 2) (b / 2) (omega arith) (omega arith),
)

and_or_halves :
    (x y z : ℕ)
    → bit_and (bit_or x y) z
      ≡ bit_and (bit_or (x / 2) (y / 2)) (z / 2) * 2 + min (max (x % 2) (y % 2)) (z % 2)
and_or_halves x y z =
    let half : bit_or x y / 2 ≡ bit_or (x / 2) (y / 2) = omega (arith, or_halves x y) in
    let low : bit_or x y % 2 ≡ max (x % 2) (y % 2) = omega (arith, or_halves x y) in
    and_halves (bit_or x y) z ∙ rw (half, low)

and_zero_within : (n a : ℕ) → a ≤ n → bit_and a 0 ≡ 0
and_zero_within n zero h = and_of_zero 0
and_zero_within zero (suc a) h = absurd (omega arith)
and_zero_within (suc n) (suc a) h =
    omega (arith, and_halves (suc a) 0, and_zero_within n (suc a / 2) (omega arith))

and_comm_within : (n a b : ℕ) → a ≤ n → bit_and a b ≡ bit_and b a
and_comm_within n zero b h = and_of_zero b ∙ sym (and_zero_within b b (omega arith))
and_comm_within zero (suc a) b h = absurd (omega arith)
and_comm_within (suc n) (suc a) b h = omega (
  arith,
  and_halves (suc a) b,
  and_halves b (suc a),
  and_comm_within n (suc a / 2) (b / 2) (omega arith),
)

pub bit_and_comm : (a b : ℕ) → bit_and a b ≡ bit_and b a
bit_and_comm a b = and_comm_within a a b (omega arith)

any_or_within :
    (n x y z : ℕ) → x ≤ n → y ≤ n → bit_and x z ≡ 0 → bit_and y z ≡ 0 → bit_and (bit_or x y) z ≡ 0
any_or_within zero x y z h k p q =
    let left : x ≡ 0 = omega arith in
    let right : y ≡ 0 = omega arith in rw (left, right, or_of_zero 0) (and_of_zero z)
any_or_within (suc n) x y z h k p q = omega (
  arith,
  and_or_halves x y z,
  and_halves x z,
  and_halves y z,
  any_or_within n (x / 2) (y / 2) (z / 2) (omega arith) (omega arith)
      (omega (arith, and_halves x z)) (omega (arith, and_halves y z)),
)

-- A union has no bit of the mask that neither part has.
pub bit_or-none : (x y z : ℕ) → bit_and x z ≡ 0 → bit_and y z ≡ 0 → bit_and (bit_or x y) z ≡ 0
bit_or-none x y z p q = any_or_within (max x y) x y z (omega arith) (omega arith) p q

pow_pos : (k : ℕ) → 0 < 2 ^ k
pow_pos zero = omega arith
pow_pos (suc k) = omega (arith, pow_pos k)

xor_of_zero : (b : ℕ) → bit_xor 0 b ≡ b
xor_of_zero b = bit_xor-bitwise 0 b

xor_halves : (a b : ℕ) → bit_xor a b ≡ bit_xor (a / 2) (b / 2) * 2 + differ (a % 2) (b % 2)
xor_halves zero b = omega (arith, xor_of_zero b, xor_of_zero (b / 2))
xor_halves (suc a) b = omega (
  arith,
  bit_xor-bitwise (suc a) b,
  bit_xor-bitwise (suc a / 2) (b / 2),
  digits_enough (λ b. b) differ a (suc a / 2) (suc a / 2) (b / 2) (omega arith) (omega arith),
)

differ_from_one : (x : ℕ) → x < 2 → differ x 1 ≡ 1 - x
differ_from_one zero h = refl
differ_from_one (suc zero) h = refl
differ_from_one (suc (suc x)) h = absurd (omega arith)

-- The complement in `k + 1` bits.
flip_halves :
    (k b : ℕ)
    → (bit_xor b (2 ^ suc k - 1) / 2 ≡ bit_xor (b / 2) (2 ^ k - 1))
      × (bit_xor b (2 ^ suc k - 1) % 2 ≡ 1 - b % 2)
flip_halves k b =
    let half : (2 ^ suc k - 1) / 2 ≡ 2 ^ k - 1 = omega arith in
    let low : (2 ^ suc k - 1) % 2 ≡ 1 = omega (arith, pow_pos k) in
    let h : bit_xor b (2 ^ suc k - 1) ≡ bit_xor (b / 2) (2 ^ k - 1) * 2 + differ (b % 2) 1 =
      xor_halves b (2 ^ suc k - 1) ∙ rw (half, low) in
    let d = differ_from_one (b % 2) (omega arith) in (omega (arith, h, d), omega (arith, h, d))

subset_within :
    (k a b z : ℕ)
    → a < 2 ^ k
    → bit_and a (bit_xor b (2 ^ k - 1)) ≡ 0
    → bit_and b z ≡ 0
    → bit_and a z ≡ 0
subset_within zero zero b z h p q = and_of_zero z
subset_within zero (suc a) b z h p q = absurd (omega arith)
subset_within (suc k) a b z h p q =
    let (half, low) = flip_halves k b in
    let parts : bit_and a (bit_xor b (2 ^ suc k - 1))
        ≡ bit_and (a / 2) (bit_xor (b / 2) (2 ^ k - 1)) * 2 + min (a % 2) (1 - b % 2) =
      and_halves a (bit_xor b (2 ^ suc k - 1)) ∙ rw (half, low) in
    let rest =
      subset_within k (a / 2) (b / 2) (z / 2) (omega arith) (omega (arith, parts))
        (omega (arith, and_halves b z)) in
    omega (arith, parts, rest, and_halves a z, and_halves b z)

-- Bits within those of another word have no bit of a mask that the other has none of.
pub bit_and-within :
    (a b z : ℕ)
    → a < 2 ^ 32
    → bit_and a (bit_xor b (2 ^ 32 - 1)) ≡ 0
    → bit_and b z ≡ 0
    → bit_and a z ≡ 0
bit_and-within a b z h p q = subset_within 32 a b z h p q
