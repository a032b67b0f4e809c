-- ===== src/Dtb/Bytes.antt =====
-- The byte order of the device tree.
use lab.Base.{ℕ, ◌+◌, ◌*◌, ◌/◌, ◌%◌, ◌^◌, ◌<◌, ◌≡◌, arith}
use lab.Strings.{Memory}
use lab.Dtb.{fdt32_to_cpu, load32}

-- The four bytes of a word, the first the most significant.
big32 : ℕ → ℕ → ℕ → ℕ → ℕ
big32 a b c d = a * 2 ^ 24 + b * 2 ^ 16 + c * 2 ^ 8 + d

swap_bytes :
    (a b c d : ℕ)
    → a < 256
    → b < 256
    → c < 256
    → d < 256
    → fdt32_to_cpu (a + b * 2 ^ 8 + c * 2 ^ 16 + d * 2 ^ 24) ≡ big32 a b c d
unfolding fdt32_to_cpu big32
swap_bytes a b c d ha hb hc hd =
    let x = a + b * 2 ^ 8 + c * 2 ^ 16 + d * 2 ^ 24 in
    let e0 : x % 2 ^ 8 ≡ a = omega arith in
    let e1 : x / 2 ^ 8 % 2 ^ 8 ≡ b = omega arith in
    let e2 : x / 2 ^ 16 % 2 ^ 8 ≡ c = omega arith in
    let e3 : x / 2 ^ 24 % 2 ^ 8 ≡ d = omega arith in omega (arith, e0, e1, e2, e3)

-- A big-endian word of memory is read as the number it writes out.
pub fdt32_to_cpu-load32 :
    (p : ℕ) (m : Memory)
    → ((q : ℕ) → m q < 256)
    → fdt32_to_cpu (load32 p m) ≡ m p * 2 ^ 24 + m (p + 1) * 2 ^ 16 + m (p + 2) * 2 ^ 8 + m (p + 3)
unfolding load32 big32
fdt32_to_cpu-load32 p m bytes =
    swap_bytes (m p) (m (p + 1)) (m (p + 2)) (m (p + 3)) (bytes p) (bytes (p + 1)) (bytes (p + 2))
      (bytes (p + 3))

-- Swapping the bytes of a 32-bit word twice gives it back.
pub fdt32_to_cpu_twice : (x : ℕ) → x < 2 ^ 32 → fdt32_to_cpu (fdt32_to_cpu x) ≡ x
unfolding fdt32_to_cpu
fdt32_to_cpu_twice x h =
    let a = x % 2 ^ 8 in
    let b = x / 2 ^ 8 % 2 ^ 8 in
    let c = x / 2 ^ 16 % 2 ^ 8 in
    let d = x / 2 ^ 24 % 2 ^ 8 in
    let y = a * 2 ^ 24 + b * 2 ^ 16 + c * 2 ^ 8 + d in
    let e0 : y % 2 ^ 8 ≡ d = omega arith in
    let e1 : y / 2 ^ 8 % 2 ^ 8 ≡ c = omega arith in
    let e2 : y / 2 ^ 16 % 2 ^ 8 ≡ b = omega arith in
    let e3 : y / 2 ^ 24 % 2 ^ 8 ≡ a = omega arith in omega (arith, e0, e1, e2, e3)
