-- ===== src/Base/Words.antt =====
-- Machine words as native numbers: the conversions and the wrapping subtraction of C.
use Prim.Native.Nat.{ℕ, ◌+◌, ◌-◌, ◌%◌, ◌^◌}

-- A value stored into an `unsigned int`.
abbrev pub u32 : ℕ → ℕ
u32 x = x % 2 ^ 32

-- A value stored into a `size_t` or `uint64_t`.
abbrev pub u64 : ℕ → ℕ
u64 x = x % 2 ^ 64

-- `a - b` on `size_t`. The subtraction of the naturals stops at 0, so the modulus comes first.
abbrev pub sub64 : ℕ → ℕ → ℕ
sub64 a b = (a + 2 ^ 64 - b) % 2 ^ 64
