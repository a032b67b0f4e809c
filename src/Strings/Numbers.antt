-- ===== src/Strings/Numbers.antt =====
-- What `strtol` reads.
use lab.Base.{
  ℕ, zero, suc, ◌+◌, ◌-◌, ◌*◌, ◌^◌, ◌≤◌, ◌<◌, ◌≡◌, ◌≢◌, ◌⊎◌, inl, inr, refl, ◌∙◌, Bool, true, false,
  if◌then◌else◌, ne→==, eq→==, le→leb, lt→leb, none, some, List, [], ◌∷◌, length, u64, sub64, done,
  arith,
}
use native.Mathlib.Decide.{dec_lt}
use lab.Strings.{Memory, digit, skip_blanks, strtol_loop, strtol}

-- The decimal digits `ds` stand at s, and behind them a byte that is no decimal digit.
abbrev pub Digits : Memory → ℕ → List ℕ → Type 0
Digits m s [] = (m s < 48) ⊎ (57 < m s)
Digits m s (d ∷ ds) = (m s ≡ 48 + d) × (d < 10) × Digits m (s + 1) ds

-- The number behind `acc` that the digits write out.
unfoldable pub decimal : ℕ → List ℕ → ℕ
decimal acc [] = acc
decimal acc (d ∷ ds) = decimal (acc * 10 + d) ds

-- A number of blanks, spaces or tabs, at s.
abbrev pub Blanks : Memory → ℕ → ℕ → Type 0
Blanks m s zero = Unit {0}
Blanks m s (suc n) = ((m s ≡ 32) ⊎ (m s ≡ 9)) × Blanks m (s + 1) n

decimal-le : (acc : ℕ) (ds : List ℕ) → acc ≤ decimal acc ds
unfolding decimal
decimal-le acc [] = omega arith
decimal-le acc (d ∷ ds) = omega (arith, decimal-le (acc * 10 + d) ds)

digit_lem : (c d : ℕ) → c ≡ 48 + d → d < 10 → digit c ≡ some d
unfolding digit
digit_lem c d e h = ground arith

-- Any other byte is no digit, or one of a base above 10.
digit_other :
    (c : ℕ) → (c < 48) ⊎ (57 < c) → (digit c ≡ none) ⊎ ((d : ℕ) × (digit c ≡ some d) × (10 ≤ d))
unfolding digit
digit_other c (inl low) = inl (ground arith)
digit_other c (inr high) = elim (dec_lt 122 c) [
  | yes above ↦ inl (ground arith)
  | no h ↦ elim (dec_lt c 97) [
    | no lower_case ↦ inr (c - 97 + 10, ground arith, omega arith)
    | yes h2 ↦ elim (dec_lt 90 c) [
      | yes between ↦ inl (ground arith)
      | no h3 ↦ elim (dec_lt c 65) [
        | yes below ↦ inl (ground arith)
        | no upper_case ↦ inr (c - 65 + 10, ground arith, omega arith)
      ]
    ]
  ]
]

strtol_loop-stop :
    (k s acc : ℕ) (m : Memory)
    → (m s < 48) ⊎ (57 < m s)
    → strtol_loop (suc k) s 10 acc m ≡ done (s, acc)
unfolding strtol_loop
strtol_loop-stop k s acc m h = elim (digit_other (m s) h) [
  | inl none_there ↦ rw (strtol_loop, none_there) refl
  | inr (d, there, big) ↦ rw (strtol_loop, there, le→leb 10 d big) refl
]

strtol_loop-Digits :
    (k s acc : ℕ) (ds : List ℕ) (m : Memory)
    → Digits m s ds
    → length ds < k
    → decimal acc ds < 2 ^ 64
    → strtol_loop k s 10 acc m ≡ done (s + length ds, decimal acc ds)
unfolding strtol_loop decimal
strtol_loop-Digits zero s acc ds m h fuel word = absurd (omega arith)
strtol_loop-Digits (suc k) s acc [] m h fuel word = strtol_loop-stop k s acc m h ∙ rw (plain s) refl
  where
    plain : (n : ℕ) → n + 0 ≡ n
    plain n = omega arith
strtol_loop-Digits (suc k) s acc (d ∷ ds) m h fuel word =
    let small : u64 (acc * 10 + d) ≡ acc * 10 + d = omega (arith, decimal-le (acc * 10 + d) ds) in
    let sum : s + 1 + length ds ≡ s + suc (length ds) = omega arith in
    rw (strtol_loop, digit_lem (m s) d h.0 h.1, lt→leb 10 d h.1, small)
      (strtol_loop-Digits k (s + 1) (acc * 10 + d) ds m h.2 (omega arith) word ∙ rw sum refl)

skip_blanks-Blanks :
    (k s n : ℕ) (m : Memory)
    → Blanks m s n
    → n < k
    → m (s + n) ≢ 32
    → m (s + n) ≢ 9
    → skip_blanks k s m ≡ done (s + n)
unfolding skip_blanks
skip_blanks-Blanks zero s n m b fuel no_space no_tab = absurd (omega arith)
skip_blanks-Blanks (suc k) s zero m b fuel no_space no_tab =
    rw (plain s)
      (rw (ne→== (m s) 32 (rw (plain s) at no_space), ne→== (m s) 9 (rw (plain s) at no_tab)) refl)
  where
    plain : (n : ℕ) → n + 0 ≡ n
    plain n = omega arith
skip_blanks-Blanks (suc k) s (suc n) m b fuel no_space no_tab =
    let sum : s + suc n ≡ s + 1 + n = omega arith in
    let rest =
      skip_blanks-Blanks k (s + 1) n m b.1 (omega arith) (rw sum at no_space) (rw sum at no_tab) in
    elim b.0 [
      | inl space ↦ rw (eq→== (m s) 32 space) (rest ∙ rw sum refl)
      | inr tab ↦ rw (tab) (rest ∙ rw sum refl)
    ]

-- A sign in front of the digits, or none.
pub data Sign (m : Memory) (s : ℕ) : Bool → ℕ → Type 0 where
  plus : m s ≡ 43 → Sign m s false (s + 1)
  minus : m s ≡ 45 → Sign m s true (s + 1)
  unsigned : Sign m s false s

-- The first digit.
first_digit : (m : Memory) (s : ℕ) (ds : List ℕ) → 0 < length ds → Digits m s ds → 48 ≤ m s
first_digit m s [] some_digit h = absurd (omega arith)
first_digit m s (d ∷ ds) some_digit h = omega (arith, h.0)

-- The byte behind the blanks is a sign or a digit.
no_blank :
    (m : Memory) (s : ℕ) (neg : Bool) (start : ℕ) → Sign m s neg start → 48 ≤ m start → 32 < m s
no_blank m s neg start (plus e) h = omega arith
no_blank m s neg start (minus e) h = omega arith
no_blank m s neg start unsigned h = omega arith

-- The sign, and the loop over the digits.
behind_blanks :
    (k s0 s : ℕ) (neg : Bool) (start end value : ℕ) (m : Memory)
    → skip_blanks k s0 m ≡ done s
    → Sign m s neg start
    → 48 ≤ m start
    → strtol_loop k start 10 0 m ≡ done (end, value)
    → strtol k s0 10 m ≡ done (end, if neg then sub64 0 value else value)
unfolding strtol
behind_blanks k s0 s neg start end value m skipped (plus e) h number = rw (skipped, e, number) refl
behind_blanks k s0 s neg start end value m skipped (minus e) h number = rw (skipped, e, number) refl
behind_blanks k s0 s neg start end value m skipped unsigned h number =
    rw
      (
        skipped,
        ne→== (m s) 43 (λ e. absurd (omega arith)),
        ne→== (m s) 45 (λ e. absurd (omega arith)),
        number,
      )
      refl

-- With base 10, on blanks, a sign or none, at least one decimal digit and then a byte that is none,
-- strtol ends with the address behind the digits and the number that they write out below 2^63,
-- negated in 64 bits after a minus sign, given more rounds than there are blanks and than there are
-- digits.
pub strtol-Digits :
    (k s n : ℕ) (neg : Bool) (start : ℕ) (ds : List ℕ) (m : Memory)
    → Blanks m s n
    → Sign m (s + n) neg start
    → Digits m start ds
    → 0 < length ds
    → n < k
    → length ds < k
    → decimal 0 ds < 2 ^ 63
    → strtol k s 10 m
      ≡ done (start + length ds, if neg then sub64 0 (decimal 0 ds) else decimal 0 ds)
strtol-Digits k s n neg start ds m b sign h some_digit fuel fuel' word =
    let first = first_digit m start ds some_digit h in
    let after = no_blank m (s + n) neg start sign first in
    let skipped =
      skip_blanks-Blanks k s n m b fuel (λ e. absurd (omega arith)) (λ e. absurd (omega arith)) in
    behind_blanks k s (s + n) neg start (start + length ds) (decimal 0 ds) m skipped sign first
      (strtol_loop-Digits k start 0 ds m h fuel' (omega arith))
