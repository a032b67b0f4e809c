-- ===== src/Readline/Tests.antt =====
-- Tests of line input, and its theorem at a short line.
use lab.Base.{◌≡◌, refl, List, [], ◌∷◌, some, done, arith}
use lab.Strings.{Memory, ℤ, pos}
use lab.Readline.{readline}
use lab.Readline.Edit.{erase, typed, Returned, readline-typed}

abbrev zeros : Memory
zeros = λ q. 0

-- "ab", a backspace, "c" and a line end.
abbrev input : List ℤ
input = pos 97 ∷ pos 98 ∷ pos 8 ∷ pos 99 ∷ pos 10 ∷ []

typed_ac : typed input [] ≡ done (some (99 ∷ 97 ∷ []))
unfolding typed erase
typed_ac = refl

readline-typed_example : Returned zeros (typed input []) (readline input 0 zeros)
readline-typed_example = readline-typed input [] zeros tt (omega arith)
