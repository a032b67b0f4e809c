-- ===== src/Dtb/Tests.antt =====
-- Tests of the device tree reader, and its theorems at small words.
use lab.Strings.Text.{Text}
use lab.Base.{
  Bool, true, not, ◌&&◌, ℕ, ◌+◌, ◌≡◌, refl, ltb, ◌==◌, if◌then◌else◌, List, [], ◌∷◌, ◌++◌, done,
  All, Bool-cases, inl, inr, ◌<◌, arith,
}
use lab.Strings.{Memory, strlen, strlen_loop, strcmp, strncmp, char_minus}
use lab.Dtb.{
  fdt32_to_cpu, fdt64_to_cpu, load32, load64, is_reg, token_loop, extract_memory_info, dtb_init,
}
use lab.Dtb.Tokens.{
  Token, begin_node, property, Laid, memory_range, begins_with, same_text, memory_text, reg_text,
  weight,
}
use lab.Dtb.Walk.{dtb_init-Laid}

-- The bytes of a list from an address on.
at_address : ℕ → List ℕ → Memory
at_address p [] = λ q. 0
at_address p (x ∷ xs) = λ q. if q == p then x else at_address (p + 1) xs q

abbrev word : ℕ → List ℕ
word b = 0 ∷ 0 ∷ 0 ∷ b ∷ []

-- "memory", "reg" and a null byte behind each.
abbrev literals : List ℕ
literals = 109 ∷ 101 ∷ 109 ∷ 111 ∷ 114 ∷ 121 ∷ 0 ∷ 114 ∷ 101 ∷ 103 ∷ 0 ∷ []

-- A header whose structure part begins at 16 and whose strings begin at 60: a node "memory" with the
-- property "reg" of 16 bytes, the base 5 and the size 7.
abbrev tree : List ℕ
tree =
    208 ∷ 13 ∷ 254 ∷ 237 ∷ word 64
    ++ word 16
    ++ word 60
    ++ (word 1 ++ (109 ∷ 101 ∷ 109 ∷ 111 ∷ 114 ∷ 121 ∷ 0 ∷ 0 ∷ []))
    ++ (word 3 ++ word 16 ++ word 0 ++ word 0 ++ word 5 ++ word 0 ++ word 7 ++ word 9)
    ++ (114 ∷ 101 ∷ 103 ∷ 0 ∷ [])

abbrev memory : Memory
memory = λ q. if ltb q 1000 then at_address 100 literals q else at_address 1000 tree q

finds_memory :
    dtb_init 100 107 9 0 1000 memory (record { memory_base = 0; memory_size = 0 })
    ≡ done (record { memory_base = 5; memory_size = 7 })
unfolding dtb_init extract_memory_info token_loop is_reg fdt32_to_cpu fdt64_to_cpu load32 load64
    strlen strlen_loop strcmp strncmp char_minus at_address
finds_memory = refl

at_address-bytes : (p : ℕ) (xs : List ℕ) → All (λ x. x < 256) xs → (q : ℕ) → at_address p xs q < 256
unfolding at_address
at_address-bytes p [] h q = omega arith
at_address-bytes p (x ∷ xs) h q = elim (Bool-cases (q == p)) [
  | inl here ↦ rw here h.0
  | inr there ↦ rw there (at_address-bytes (p + 1) xs h.1 q)
]

all_bytes : List ℕ → Bool
all_bytes [] = true
all_bytes (x ∷ xs) = ltb x 256 && all_bytes xs

all_bytes-All : (xs : List ℕ) → all_bytes xs ≡ true → All (λ x. x < 256) xs
unfolding all_bytes
all_bytes-All [] e = tt
all_bytes-All (x ∷ xs) e = (ground arith, all_bytes-All xs (ground arith))

holds_text : Memory → ℕ → List ℕ → Bool
holds_text m s [] = m s == 0
holds_text m s (x ∷ xs) = (m s == x) && (not (x == 0) && holds_text m (s + 1) xs)

holds_text-Text : (m : Memory) (s : ℕ) (xs : List ℕ) → holds_text m s xs ≡ true → Text m s xs
unfolding holds_text
holds_text-Text m s [] e = ground arith
holds_text-Text m s (x ∷ xs) e =
    (ground arith, (λ z. ground arith), holds_text-Text m (s + 1) xs (ground arith))

memory-bytes : (q : ℕ) → memory q < 256
unfolding all_bytes
memory-bytes q = elim (Bool-cases (ltb q 1000)) [
  | inl low ↦ rw low (at_address-bytes 100 literals (all_bytes-All literals refl) q)
  | inr high ↦ rw high (at_address-bytes 1000 tree (all_bytes-All tree refl) q)
]

abbrev tokens : List Token
tokens = begin_node memory_text ∷ property reg_text 16 5 7 ∷ []

tokens-Laid : Laid memory 1060 1016 tokens
unfolding at_address holds_text
tokens-Laid = (
  1028,
  (refl, holds_text-Text memory 1020 memory_text refl, omega arith, refl),
  (1056, (refl, refl, holds_text-Text memory 1060 reg_text refl, refl, refl, refl), refl),
)

dtb_init-Laid_example :
    dtb_init 100 107 12 0 1000 memory (record { memory_base = 0; memory_size = 0 })
    ≡ done (record { memory_base = 5; memory_size = 7 })
unfolding memory_range begins_with same_text at_address holds_text weight
dtb_init-Laid_example =
    dtb_init-Laid memory memory-bytes 100 107 1060 (holds_text-Text memory 100 memory_text refl)
      (holds_text-Text memory 107 reg_text refl) 12 0 1000 tokens
      (record { memory_base = 0; memory_size = 0 }) (omega arith) refl refl tokens-Laid
      (omega arith)
