-- ===== src/Print/Tests.antt =====
-- Tests of the printing functions, and their theorems at a number and a small buffer.
use lab.Base.{ℕ, ◌+◌, ◌≤◌, ◌<◌, ◌≡◌, refl, ◌⊎◌, List, [], ◌∷◌, some, done, arith}
use lab.Strings.{Memory}
use lab.Print.{printnum, digit_char, vsnprintf}
use lab.Print.Number.{Printed, printnum-Printed}
use lab.Print.Buffer.{Written, stored, vsnprintf-Written}

-- 255 in hexadecimal, four wide, padded with 0: "00ff".
print_hex : printnum 3 255 16 4 48 ≡ done (48 ∷ 48 ∷ 102 ∷ 102 ∷ [])
unfolding printnum digit_char
print_hex = refl

printnum-Printed_example :
    (cs : List ℕ) × (printnum 256 255 16 4 48 ≡ done cs) × Printed 255 16 4 48 cs
printnum-Printed_example =
    printnum-Printed 256 255 16 4 48 (omega arith) (omega arith) (omega arith)

abbrev zeros : Memory
zeros = λ q. 0

-- "abc" into three bytes.
vsnprintf-Written_example :
    (m' : Memory) × (vsnprintf 100 3 (97 ∷ 98 ∷ 99 ∷ []) zeros ≡ some (3, m'))
    × Written m' 100 2 (97 ∷ 98 ∷ 99 ∷ [])
    × (m' (100 + stored 2 (97 ∷ 98 ∷ 99 ∷ [])) ≡ 0)
    × ((q : ℕ) → (q < 100) ⊎ (100 + 3 ≤ q) → m' q ≡ zeros q)
vsnprintf-Written_example =
    vsnprintf-Written 100 3 (97 ∷ 98 ∷ 99 ∷ []) zeros (omega arith) (omega arith) (omega arith)
      (omega arith)
