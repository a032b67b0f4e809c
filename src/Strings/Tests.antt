-- ===== src/Strings/Tests.antt =====
-- Tests of the string functions, and their theorems at a small memory.
use lab.Base.{
  ℕ, suc, ◌+◌, ◌-◌, ◌^◌, ◌<◌, ◌≡◌, ◌≢◌, refl, inl, ◌↔◌, List, [], ◌∷◌, true, sub64, done,
  if◌then◌else◌, ◌==◌, length, arith,
}
use lab.Strings.{
  Memory, pos, strcpy, strcmp, strtol, strtol_loop, skip_blanks, digit, memmove, memcmp,
}
use lab.Strings.Numbers.{decimal, minus, strtol-Digits}
use lab.Strings.Text.{Text, strcpy-Copied}
use lab.Strings.Copy.{Copied, memmove-Copied}
use lab.Strings.Compare.{compare, strcmp-Text, memcmp_lem}

-- "-12" at 100 and "0x1f" at 200.
abbrev memory : Memory
memory = λ q.
    if q == 100
    then 45
    else if q == 101
    then 49
    else if q == 102
    then 50
    else if q == 200
    then 48
    else if q == 201
    then 120
    else if q == 202
    then 49
    else if q == 203
    then 102
    else 0

strtol_minus_twelve : strtol 10 100 10 memory ≡ done (103, 2 ^ 64 - 12)
unfolding strtol strtol_loop skip_blanks digit
strtol_minus_twelve = refl

strtol_hex : strtol 10 200 0 memory ≡ done (204, 31)
unfolding strtol strtol_loop skip_blanks digit
strtol_hex = refl

abbrev minus_twelve : List ℕ
minus_twelve = 45 ∷ 49 ∷ 50 ∷ []

minus_twelve-Text : Text memory 100 minus_twelve
minus_twelve-Text =
    let nonzero : (n : ℕ) → suc n ≢ 0 = λ n e. absurd (omega arith) in
    (refl, nonzero 44, (refl, nonzero 48, (refl, nonzero 49, refl)))

empty-Text : Text memory 300 []
empty-Text = refl

strcpy-Copied_example :
    (m' : Memory) × (strcpy 4 99 100 memory ≡ done m')
    × Copied 99 100 (suc (length minus_twelve)) memory m'
strcpy-Copied_example =
    strcpy-Copied 4 99 100 memory minus_twelve minus_twelve-Text (inl (omega arith)) (omega arith)

strcmp-Text_example :
    (strcmp 4 100 300 memory ≡ done (compare minus_twelve []))
    × ((compare minus_twelve [] ≡ pos 0) ↔ (minus_twelve ≡ []))
strcmp-Text_example =
    strcmp-Text 4 100 300 memory minus_twelve [] minus_twelve-Text empty-Text (omega arith)

memmove-Copied_example : Copied 101 100 3 memory (memmove 101 100 3 memory)
memmove-Copied_example = memmove-Copied 101 100 3 memory

memcmp_lem_example :
    (memcmp 100 200 3 memory ≡ pos 0) ↔ ((i : ℕ) → i < 3 → memory (100 + i) ≡ memory (200 + i))
memcmp_lem_example = memcmp_lem 3 100 200 memory

strtol-Digits_example : strtol 10 100 10 memory ≡ done (103, sub64 0 12)
unfolding decimal
strtol-Digits_example =
    strtol-Digits 10 100 0 true 101 (1 ∷ 2 ∷ []) memory tt (minus refl)
      (refl, omega arith, (refl, omega arith, inl (omega arith))) (omega arith) (omega arith)
      (omega arith) (omega arith)
