-- ===== src/Buddy/Xor.antt =====
-- Flipping one bit of a number, as arithmetic: `idx ^ (1UL << order)` adds or takes away the power.
use Prim.Native.Nat.{bit_xor, digits, differ, bit_xor-bitwise}
use native.Mathlib.Decide.{dec_lt}
use lab.Base.{ℕ, zero, suc, ◌+◌, ◌*◌, ◌/◌, ◌%◌, ◌^◌, ◌≤◌, ◌<◌, ◌≡◌, refl, ◌⊎◌, inl, inr, arith}
use lab.Buddy.Lists.{pow_double}

abbrev xor_digits : ℕ → ℕ → ℕ → ℕ
xor_digits = digits (λ b. b) differ

-- The fuel of the digit recursion does not matter once it covers the first number.
xor_digits-fuel : (n m a b : ℕ) → a ≤ n → a ≤ m → xor_digits n a b ≡ xor_digits m a b
xor_digits-fuel zero zero zero b p q = refl
xor_digits-fuel zero (suc m) zero b p q = refl
xor_digits-fuel (suc n) zero zero b p q = refl
xor_digits-fuel (suc n) (suc m) zero b p q = refl
xor_digits-fuel zero m (suc a) b p q = absurd (omega arith)
xor_digits-fuel (suc n) zero (suc a) b p q = absurd (omega arith)
xor_digits-fuel (suc n) (suc m) (suc a) b p q =
    let half = xor_digits-fuel n m (suc a / 2) (b / 2) (omega arith) (omega arith) in
    omega (arith, half)

zero-bit_xor : (b : ℕ) → bit_xor 0 b ≡ b
zero-bit_xor b = bit_xor-bitwise 0 b

bit_xor-digit : (a b : ℕ) → bit_xor a b ≡ bit_xor (a / 2) (b / 2) * 2 + differ (a % 2) (b % 2)
bit_xor-digit zero b = omega (arith, zero-bit_xor b, zero-bit_xor (b / 2), zero_differ (b % 2))
  where
    zero_differ : (r : ℕ) → differ 0 r ≡ r
    zero_differ r = refl
bit_xor-digit (suc a) b = omega (
  arith,
  bit_xor-bitwise (suc a) b,
  bit_xor-bitwise (suc a / 2) (b / 2),
  xor_digits-fuel a (suc a / 2) (suc a / 2) (b / 2) (omega arith) (omega arith),
)

differ-zero : (r : ℕ) → differ r 0 ≡ r
differ-zero zero = refl
differ-zero (suc r) = refl

differ-one : (r : ℕ) → r < 2 → differ r 1 + r ≡ 1
differ-one zero h = refl
differ-one (suc zero) h = refl
differ-one (suc (suc r)) h = absurd (omega arith)

bit_xor-zero_below : (n a : ℕ) → a ≤ n → bit_xor a 0 ≡ a
bit_xor-zero_below n zero h = refl
bit_xor-zero_below zero (suc a) h = absurd (omega arith)
bit_xor-zero_below (suc n) (suc a) h =
    let d : bit_xor (suc a) 0 ≡ bit_xor (suc a / 2) 0 * 2 + differ (suc a % 2) 0 =
      bit_xor-digit (suc a) 0 in
    omega (arith, d, differ-zero (suc a % 2), bit_xor-zero_below n (suc a / 2) (omega arith))

bit_xor-one : (x : ℕ) → bit_xor x 1 ≡ x / 2 * 2 + differ (x % 2) 1
bit_xor-one x =
    let d : bit_xor x 1 ≡ bit_xor (x / 2) 0 * 2 + differ (x % 2) 1 = bit_xor-digit x 1 in
    omega (arith, d, bit_xor-zero_below (x / 2) (x / 2) (omega arith))

bit_xor-even : (x b : ℕ) → bit_xor x (b + b) ≡ bit_xor (x / 2) b * 2 + x % 2
bit_xor-even x b =
    let half : (b + b) / 2 ≡ b = omega arith in
    let even : (b + b) % 2 ≡ 0 = omega arith in
    let d = bit_xor-digit x (b + b) in
    let d' : bit_xor x (b + b) ≡ bit_xor (x / 2) b * 2 + differ (x % 2) 0 = rw (half, even) at d in
    omega (arith, d', differ-zero (x % 2))

-- Either the bit was clear, and the power is added, or it was set, and the power is taken away.
pub bit_xor-pow : (o x : ℕ) → (bit_xor x (2 ^ o) ≡ x + 2 ^ o) ⊎ (bit_xor x (2 ^ o) + 2 ^ o ≡ x)
bit_xor-pow zero x =
    let d : bit_xor x (2 ^ 0) ≡ x / 2 * 2 + differ (x % 2) 1 = bit_xor-one x in
    elim (dec_lt (x % 2) 1) [
      | yes h ↦ inl (omega (arith, d, differ-one (x % 2) (omega arith)))
      | no h ↦ inr (omega (arith, d, differ-one (x % 2) (omega arith)))
    ]
bit_xor-pow (suc o) x =
    let e = bit_xor-even x (2 ^ o) in
    rw (pow_double o) (elim (bit_xor-pow o (x / 2)) [
      | inl h ↦ inl (omega (arith, e, h))
      | inr h ↦ inr (omega (arith, e, h))
    ])
