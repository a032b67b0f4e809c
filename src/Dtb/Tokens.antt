-- ===== src/Dtb/Tokens.antt =====
-- The device tree as a sequence of tokens, how it lies in memory, and the memory range that it states.
use lab.Base.{
  ℕ, suc, ◌+◌, ◌*◌, ◌/◌, ◌^◌, ◌<◌, ◌≡◌, Bool, true, false, ◌&&◌, ◌||◌, ◌==◌, leb, if◌then◌else◌,
  Option, none, some, List, [], ◌∷◌, length,
}
use lab.Strings.{Memory}
use lab.Strings.Text.{Text}

-- A property has its name, its length and the first two double words of its data.
pub data Token : Type 0 where
  begin_node : List ℕ → Token
  end_node : Token
  property : List ℕ → ℕ → ℕ → ℕ → Token
  nop : Token

-- The big-endian words at an address.
abbrev pub word32 : Memory → ℕ → ℕ
word32 m p = m p * 2 ^ 24 + m (p + 1) * 2 ^ 16 + m (p + 2) * 2 ^ 8 + m (p + 3)

abbrev pub word64 : Memory → ℕ → ℕ
word64 m p = word32 m p * 2 ^ 32 + word32 m (p + 4)

-- A token stands at p, and the next one at q.
abbrev pub At : Memory → ℕ → ℕ → Token → ℕ → Type 0
At m strings p (begin_node name) q =
    (word32 m p ≡ 1)
    × Text m (p + 4) name
    × (length name < 2 ^ 31)
    × (q ≡ (p + 4 + length name + 4) / 4 * 4)
At m strings p end_node q = (word32 m p ≡ 2) × (q ≡ p + 4)
At m strings p (property name len base size) q =
    (word32 m p ≡ 3)
    × (word32 m (p + 4) ≡ len)
    × Text m (strings + word32 m (p + 4 + 4)) name
    × (word64 m (p + 4 + 8) ≡ base)
    × (word64 m (p + 4 + 8 + 8) ≡ size)
    × (q ≡ (p + 4 + 8 + len + 3) / 4 * 4)
At m strings p nop q = (word32 m p ≡ 4) × (q ≡ p + 4)

-- The tokens from p on, and the word 9 behind them.
abbrev pub Laid : Memory → ℕ → ℕ → List Token → Type 0
Laid m strings p [] = word32 m p ≡ 9
Laid m strings p (t ∷ ts) = (q : ℕ) × At m strings p t q × Laid m strings q ts

-- The first string begins with the second one.
unfoldable pub begins_with : List ℕ → List ℕ → Bool
begins_with xs [] = true
begins_with [] (y ∷ ys) = false
begins_with (x ∷ xs) (y ∷ ys) = (x == y) && begins_with xs ys

unfoldable pub same_text : List ℕ → List ℕ → Bool
same_text [] [] = true
same_text [] (y ∷ ys) = false
same_text (x ∷ xs) [] = false
same_text (x ∷ xs) (y ∷ ys) = (x == y) && same_text xs ys

-- "memory" and "reg"
abbrev pub memory_text : List ℕ
memory_text = 109 ∷ 101 ∷ 109 ∷ 111 ∷ 114 ∷ 121 ∷ []

abbrev pub reg_text : List ℕ
reg_text = 114 ∷ 101 ∷ 103 ∷ []

-- The first property "reg" of 16 bytes or more that stands behind the begin of a node "memory..." and
-- before the next end of a node.
unfoldable pub memory_range : Bool → List Token → Option (ℕ × ℕ)
memory_range in_memory [] = none
memory_range in_memory (begin_node name ∷ ts) =
    memory_range (begins_with name memory_text || in_memory) ts
memory_range in_memory (end_node ∷ ts) = memory_range false ts
memory_range in_memory (property name len base size ∷ ts) =
    if in_memory && (same_text name reg_text && leb 16 len)
    then some (base, size)
    else memory_range in_memory ts
memory_range in_memory (nop ∷ ts) = memory_range in_memory ts

-- More rounds than this are enough.
unfoldable pub weight : List Token → ℕ
weight [] = 0
weight (begin_node name ∷ ts) = suc (length name) + weight ts
weight (property name len base size ∷ ts) = suc (length name) + weight ts
weight (t ∷ ts) = suc (weight ts)
