-- ===== src/Readline/Edit.antt =====
-- The line that `readline` returns, against a line kept as a list.
use lab.Base.{
  ℕ, suc, ◌+◌, ◌-◌, ◌%◌, ◌≤◌, ◌<◌, ◌≡◌, refl, ◌∙◌, ◌&&◌, ◌||◌, inl, inr, Bool-cases, ltb, leb, ◌==◌,
  if◌then◌else◌, length, List, [], ◌∷◌, Option, none, some, Run, done, panicked, out_of_fuel, arith,
}
use lab.Strings.{Memory, ℤ, pos, negsuc, store}
use lab.Strings.Copy.{store-other, store-same}
use lab.Readline.{readline}

unfoldable pub erase : List ℕ → List ℕ
erase [] = []
erase (c ∷ line) = line

-- What was typed, the last character first: printable characters are put on the line while it has
-- fewer than 1023, a backspace takes the last one off, a line end gives the line.
unfoldable pub typed : List ℤ → List ℕ → Run (Option (List ℕ))
typed [] line = out_of_fuel
typed (negsuc c ∷ cs) line = done none
typed (pos c ∷ cs) line =
    let stored = typed cs (c % 256 ∷ line) in
    let ignored = typed cs line in
    let erased = typed cs (erase line) in
    if leb 32 c && ltb (length line) 1023
    then stored
    else if (c == 8) && ltb 0 (length line)
    then erased
    else if (c == 10) || (c == 13)
    then done (some line)
    else ignored

-- The buffer begins with the line.
abbrev pub Holds : Memory → List ℕ → Type 0
Holds buf [] = Unit
Holds buf (c ∷ line) = (buf (length line) ≡ c) × Holds buf line

-- What `readline` returns for what was typed: for a line of at most 1023 characters, a buffer that
-- begins with it and a null byte behind it, and is unchanged from its end on.
pub Returned : Memory → Run (Option (List ℕ)) → Run (Option Memory) → Type 0
Returned buf (done (some line)) r =
    (buf' : Memory) × (r ≡ done (some buf'))
    × Holds buf' line
    × (buf' (length line) ≡ 0)
    × (length line < 1024)
    × ((q : ℕ) → 1024 ≤ q → buf' q ≡ buf q)
Returned buf (done none) r = r ≡ done none
Returned buf panicked r = r ≡ panicked
Returned buf out_of_fuel r = r ≡ out_of_fuel

Holds-store :
    (line : List ℕ) (i v : ℕ) (buf : Memory)
    → length line ≤ i
    → Holds buf line
    → Holds (store i v buf) line
Holds-store [] i v buf h k = tt
Holds-store (c ∷ line) i v buf h k = (
  store-other i v (length line) buf (λ e. absurd (omega arith)) ∙ k.0,
  Holds-store line i v buf (omega arith) k.1,
)

Returned-store :
    (i v : ℕ) (buf : Memory) (t : Run (Option (List ℕ))) (r : Run (Option Memory))
    → i < 1024
    → Returned (store i v buf) t r
    → Returned buf t r
unfolding Returned
Returned-store i v buf (done (some line)) r h (buf', e, k, z, l, o) =
    (buf', e, k, z, l, λ q g. o q g ∙ store-other i v q buf (λ e. absurd (omega arith)))
Returned-store i v buf (done none) r h k = k
Returned-store i v buf panicked r h k = k
Returned-store i v buf out_of_fuel r h k = k

length-erase : (line : List ℕ) → length line - 1 ≡ length (erase line)
unfolding erase
length-erase [] = omega arith
length-erase (c ∷ line) = omega arith

Holds-erase : (line : List ℕ) (buf : Memory) → Holds buf line → Holds buf (erase line)
unfolding erase
Holds-erase [] buf k = tt
Holds-erase (c ∷ line) buf k = k.1

-- `readline`, from a buffer that begins with a line of fewer than 1024 characters, returns what was
-- typed behind it, within the buffer.
pub readline-typed :
    (cs : List ℤ) (line : List ℕ) (buf : Memory)
    → Holds buf line
    → length line < 1024
    → Returned buf (typed cs line) (readline cs (length line) buf)
unfolding typed readline Returned
readline-typed [] line buf k h = refl
readline-typed (negsuc c ∷ cs) line buf k h = refl
readline-typed (pos c ∷ cs) line buf k h = elim (Bool-cases (leb 32 c && ltb (length line) 1023)) [
  | inl printable ↦
      let room : length line < 1023 = ground arith in
      let up : length line + 1 ≡ suc (length line) = omega arith in
      let buf1 = store (length line) (c % 256) buf in
      rw (printable, up)
        (Returned-store (length line) (c % 256) buf (typed cs (c % 256 ∷ line))
          (readline cs (suc (length line)) buf1) h
          (readline-typed cs (c % 256 ∷ line) buf1
            (
              store-same (length line) (c % 256) buf,
              Holds-store line (length line) (c % 256) buf (omega arith) k,
            )
            (omega arith)))
  | inr other ↦ elim (Bool-cases ((c == 8) && ltb 0 (length line))) [
    | inl back ↦
        rw (other, back, length-erase line)
          (readline-typed cs (erase line) buf (Holds-erase line buf k)
            (omega (arith, length-erase line)))
    | inr other' ↦ elim (Bool-cases ((c == 10) || (c == 13))) [
      | inl end ↦
          rw (other, other', end)
            (
              store (length line) 0 buf,
              refl,
              Holds-store line (length line) 0 buf (omega arith) k,
              store-same (length line) 0 buf,
              h,
              λ q g. store-other (length line) 0 q buf (λ e. absurd (omega arith)),
            )
      | inr nothing ↦ rw (other, other', nothing) (readline-typed cs line buf k h)
    ]
  ]
]
