-- ===== src/Slub/Classes.antt =====
-- The size classes of the slab allocator.
use native.Mathlib.Decide.{dec_lt}
use native.Mathlib.Nat.{pow-suc}
use lab.Base.{ℕ, zero, suc, ◌+◌, ◌*◌, ◌^◌, ◌≤◌, ◌<◌, ◌≡◌, lt→ltb, le→ltb, arith}
use lab.Slub.{index_loop, size_to_index}

-- Class i, of objects of 8 * 2 ^ i bytes, is the least one that has `size` bytes.
pub record IsClass (size i : ℕ) : Type 0 where
  pub bounded : i ≤ 9
  pub enough : size ≤ 8 * 2 ^ i
  pub least : (j : ℕ) → j < i → 8 * 2 ^ j < size

index_loop-IsClass :
    (k size i : ℕ)
    → k + i ≡ 9
    → size ≤ 4096
    → ((j : ℕ) → j < i → 8 * 2 ^ j < size)
    → IsClass size (index_loop k size (8 * 2 ^ i) i)
unfolding index_loop
index_loop-IsClass zero size i e small least =
    let nine : i ≡ 9 = omega arith in
    record { bounded = omega arith; enough = rw nine (omega arith); least = least }
index_loop-IsClass (suc k) size i e small least =
    let next : 8 * 2 ^ i * 2 ≡ 8 * 2 ^ (i + 1) = omega (arith, double i) in
    elim (dec_lt (8 * 2 ^ i) size) [
      | yes less ↦
          rw (lt→ltb (8 * 2 ^ i) size less, next)
            (index_loop-IsClass k size (i + 1) (omega arith) small (below less))
      | no more ↦
          rw (le→ltb (8 * 2 ^ i) size (omega arith))
            (record { bounded = omega arith; enough = omega arith; least = least })
    ]
  where
    double : (n : ℕ) → 2 ^ (n + 1) ≡ 2 ^ n * 2
    double n = let up : n + 1 ≡ suc n = omega arith in rw up (omega (arith, pow-suc 2 n))

    below : 8 * 2 ^ i < size → (j : ℕ) → j < i + 1 → 8 * 2 ^ j < size
    below less j h = elim (dec_lt j i) [
      | yes lower ↦ least j lower
      | no same ↦ let q : j ≡ i = omega arith in rw q less
    ]

-- Up to 4096 bytes `size_to_index` gives the least of the ten classes whose objects have the size.
pub size_to_index-IsClass : (size : ℕ) → size ≤ 4096 → IsClass size (size_to_index size)
unfolding size_to_index
size_to_index-IsClass size small =
    index_loop-IsClass 9 size 0 (omega arith) small (λ j h. absurd (omega arith))
