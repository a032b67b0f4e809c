-- ===== src/Strings/Compare.antt =====
-- Comparing strings and memory.
use lab.Base.{
  ℕ, zero, suc, ◌+◌, ◌<◌, ◌≡◌, ◌≢◌, refl, sym, ◌↔◌, inl, inr, List, [], ◌∷◌, length, leb, ◌==◌,
  if◌then◌else◌, Bool-cases, done, arith, ne→==, eq→==,
}
use native.Mathlib.Decide.{ℕ_discrete}
use lab.Strings.{Memory, ℤ, pos, char_minus, strcmp, memcmp}
use lab.Strings.Text.{Text}

-- The comparison of two strings by their first difference, a string's end counting as null.
unfoldable pub compare : List ℕ → List ℕ → ℤ
compare [] [] = pos 0
compare [] (y ∷ ys) = char_minus 0 y
compare (x ∷ xs) [] = char_minus x 0
compare (x ∷ xs) (y ∷ ys) = if x == y then compare xs ys else char_minus x y

pub char_minus-zero : (a b : ℕ) → a ≢ b → char_minus a b ≢ pos 0
unfolding char_minus
char_minus-zero a b ne e = elim (Bool-cases (leb b a)) [
  | inl le ↦ ne (ground (arith, (rw le at (e))))
  | inr gt ↦ cc
]

pub char_minus-same : (a : ℕ) → char_minus a a ≡ pos 0
unfolding char_minus
char_minus-same a = ground arith

strcmp-compare :
    (k s1 s2 : ℕ) (m : Memory) (xs ys : List ℕ)
    → Text m s1 xs
    → Text m s2 ys
    → length xs < k
    → strcmp k s1 s2 m ≡ done (compare xs ys)
unfolding strcmp compare
strcmp-compare zero s1 s2 m xs ys t u fuel = absurd (omega arith)
strcmp-compare (suc k) s1 s2 m [] [] t u fuel = rw (t, u, char_minus-same 0) refl
strcmp-compare (suc k) s1 s2 m [] (y ∷ ys) t u fuel = rw (t, u.0) refl
strcmp-compare (suc k) s1 s2 m (x ∷ xs) [] t u fuel = rw (t.0, u, ne→== x 0 t.1) refl
strcmp-compare (suc k) s1 s2 m (x ∷ xs) (y ∷ ys) t u fuel = elim (Bool-cases (x == y)) [
  | inl same ↦
      rw (t.0, u.0, ne→== x 0 t.1, same)
        (strcmp-compare k (s1 + 1) (s2 + 1) m xs ys t.2 u.2 (omega arith))
  | inr differ ↦ rw (t.0, u.0, ne→== x 0 t.1, differ) refl
]

compare-equal :
    (m : Memory) (s1 s2 : ℕ) (xs ys : List ℕ)
    → Text m s1 xs
    → Text m s2 ys
    → compare xs ys ≡ pos 0
    → xs ≡ ys
unfolding compare
compare-equal m s1 s2 [] [] t u e = refl
compare-equal m s1 s2 [] (y ∷ ys) t u e = absurd (char_minus-zero 0 y (λ q. u.1 (sym q)) e)
compare-equal m s1 s2 (x ∷ xs) [] t u e = absurd (char_minus-zero x 0 t.1 e)
compare-equal m s1 s2 (x ∷ xs) (y ∷ ys) t u e = elim (ℕ_discrete x y) [
  | yes q ↦
      let tails = compare-equal m (s1 + 1) (s2 + 1) xs ys t.2 u.2 (rw (eq→== x y q) at (e)) in
      rw (q, tails) refl
  | no ne ↦ absurd (char_minus-zero x y ne (rw (ne→== x y ne) at (e)))
]

compare_same : (xs : List ℕ) → compare xs xs ≡ pos 0
unfolding compare
compare_same [] = refl
compare_same (x ∷ xs) = rw (eq→== x x refl) (compare_same xs)

-- `strcmp` ends on two strings, given more rounds than the first has bytes, with the comparison of
-- their first difference, which is 0 just when the strings are equal.
pub strcmp-Text :
    (k s1 s2 : ℕ) (m : Memory) (xs ys : List ℕ)
    → Text m s1 xs
    → Text m s2 ys
    → length xs < k
    → (strcmp k s1 s2 m ≡ done (compare xs ys)) × ((compare xs ys ≡ pos 0) ↔ (xs ≡ ys))
strcmp-Text k s1 s2 m xs ys t u fuel = (
  strcmp-compare k s1 s2 m xs ys t u fuel,
  (compare-equal m s1 s2 xs ys t u, λ e. rw e (compare_same ys)),
)

first_byte : (v : ℕ) → v + zero ≡ v
first_byte v = omega arith

next_byte : (v i : ℕ) → v + suc i ≡ v + 1 + i
next_byte v i = omega arith

-- `memcmp` is 0 just when the n bytes agree.
pub memcmp_lem :
    (n v1 v2 : ℕ) (m : Memory)
    → (memcmp v1 v2 n m ≡ pos 0) ↔ ((i : ℕ) → i < n → m (v1 + i) ≡ m (v2 + i))
unfolding memcmp
memcmp_lem zero v1 v2 m = ((λ e i h. absurd (omega arith)), λ f. refl)
memcmp_lem (suc n) v1 v2 m =
    let (there, back) = memcmp_lem n (v1 + 1) (v2 + 1) m in
    elim (ℕ_discrete (m v1) (m v2)) [
      | yes q ↦ rw (eq→== (m v1) (m v2) q) (
        (λ e i h. bytes q (there e) i h),
        λ f. back (λ i h. rw (← next_byte v1 i, ← next_byte v2 i) (f (suc i) (omega arith))),
      )
      | no ne ↦ rw (ne→== (m v1) (m v2) ne) (
        (λ e. absurd (char_minus-zero (m v1) (m v2) ne e)),
        λ f. absurd (ne (rw (first_byte v1, first_byte v2) at (f 0 (omega arith)))),
      )
    ]
  where
    bytes :
        m v1 ≡ m v2
        → ((i : ℕ) → i < n → m (v1 + 1 + i) ≡ m (v2 + 1 + i))
        → (i : ℕ) → i < suc n
        → m (v1 + i) ≡ m (v2 + i)
    bytes q f zero h = rw (first_byte v1, first_byte v2) q
    bytes q f (suc i) h = rw (next_byte v1 i, next_byte v2 i) (f i (omega arith))
