-- ===== src/Print/Number.antt =====
-- What `printnum` prints.
use native.Mathlib.Decide.{dec_lt}
use native.Mathlib.Nat.{div-mul-le_self, div-add-mod, mod-lt, mod-eq_of_lt, mul_comm}
use lab.Base.{
  ℕ, zero, suc, ◌+◌, ◌-◌, ◌*◌, ◌/◌, ◌%◌, ◌≤◌, ◌<◌, ◌≡◌, ◌≢◌, ◌⊎◌, inl, inr, All, refl, sym, ap, ◌∙◌,
  List, [], ◌∷◌, ◌++◌, append_assoc, ltb, lt→ltb, le→ltb, lt→leb, le→leb, if◌then◌else◌, length,
  done, arith,
}
use lab.Print.{replicate, digit_char, printnum}

-- The value of a digit character.
unfoldable pub char_digit : ℕ → ℕ
char_digit c = if ltb c 58 then c - 48 else c - 87

-- The number that digits write out in a base, the first the most significant, read behind `acc`.
pub read_digits : ℕ → ℕ → List ℕ → ℕ
unfolding char_digit
read_digits base acc [] = acc
read_digits base acc (c ∷ cs) = read_digits base (acc * base + char_digit c) cs

read_digits-snoc :
    (base acc c : ℕ) (cs : List ℕ)
    → read_digits base acc (cs ++ c ∷ []) ≡ read_digits base acc cs * base + char_digit c
unfolding read_digits
read_digits-snoc base acc c [] = refl
read_digits-snoc base acc c (d ∷ cs) = read_digits-snoc base (acc * base + char_digit d) c cs

char_digit_char : (d : ℕ) → d < 16 → char_digit (digit_char d) ≡ d
unfolding char_digit digit_char
char_digit_char d h = ground arith

one_value : (base c : ℕ) → read_digits base 0 (c ∷ []) ≡ char_digit c
unfolding read_digits
one_value base c = omega arith

length-snoc : (c : ℕ) (cs : List ℕ) → length (cs ++ c ∷ []) ≡ length cs + 1
length-snoc c [] = refl
length-snoc c (d ∷ cs) = omega (arith, length-snoc c cs)

-- '0' to '9' and 'a' to 'f', with a value below the base.
abbrev pub IsDigit : ℕ → ℕ → Type 0
IsDigit base c = (((48 ≤ c) × (c < 58)) ⊎ ((97 ≤ c) × (c < 103))) × (char_digit c < base)

-- A number of several digits does not begin with a zero.
abbrev pub NoLeadingZero : List ℕ → Type 0
NoLeadingZero [] = Unit
NoLeadingZero (c ∷ []) = Unit
NoLeadingZero (c ∷ d ∷ cs) = c ≢ 48

digit_char-IsDigit : (base d : ℕ) → d < base → base ≤ 16 → IsDigit base (digit_char d)
unfolding digit_char char_digit
digit_char-IsDigit base d less small = elim (dec_lt d 10) [
  | yes low ↦
      rw (lt→ltb d 10 low, lt→ltb (48 + d) 58 (omega arith))
        (inl (omega arith, omega arith), omega arith)
  | no high ↦
      rw (le→ltb d 10 (omega arith), le→ltb (87 + d) 58 (omega arith))
        (inr (omega arith, omega arith), omega arith)
]

All-snoc :
    (base c : ℕ) (cs : List ℕ)
    → All (IsDigit base) cs
    → IsDigit base c
    → All (IsDigit base) (cs ++ c ∷ [])
All-snoc base c [] a h = (h, tt)
All-snoc base c (d ∷ cs) a h = (a.0, All-snoc base c cs a.1 h)

zero_digit : (d : ℕ) → d ≡ 48 → 0 < char_digit d → ⊥
unfolding char_digit
zero_digit d e pos = ground arith

NoLeadingZero-snoc :
    (base c : ℕ) (cs : List ℕ)
    → 0 < read_digits base 0 cs
    → NoLeadingZero cs
    → NoLeadingZero (cs ++ c ∷ [])
unfolding read_digits char_digit
NoLeadingZero-snoc base c [] pos h = tt
NoLeadingZero-snoc base c (d ∷ []) pos h =
    λ e. absurd (zero_digit d e (omega (arith, pos, one_value base d)))
NoLeadingZero-snoc base c (d ∷ e ∷ cs) pos h = h

-- The characters are padding up to the width, and digits that write out the number.
pub record Printed (num base width padc : ℕ) (cs : List ℕ) : Type 0 where
  pub digits : List ℕ
  pub padded : cs ≡ replicate (width - length digits) padc ++ digits
  pub value : read_digits base 0 digits ≡ num
  pub some_digit : 0 < length digits
  pub each : All (IsDigit base) digits
  pub leading : NoLeadingZero digits

div_less : (num base : ℕ) → 1 < base → base ≤ num → num / base < num
div_less num base big le = elim (dec_lt (num / base) num) [
  | yes less ↦ less
  | no more ↦ absurd (grind (arith, div-mul-le_self num base))
]

quotient : (num base : ℕ) → num / base * base + num % base ≡ num
quotient num base = omega (arith, div-add-mod num base, mul_comm base (num / base))

quotient_pos : (num base : ℕ) → 1 < base → base ≤ num → 0 < num / base
quotient_pos num base big le = elim (dec_lt 0 (num / base)) [
  | yes pos ↦ pos
  | no none ↦
      let whole = quotient num base in
      let zero_quotient : num / base ≡ 0 = omega arith in
      let only : 0 * base + num % base ≡ num = rw zero_quotient at whole in
      absurd (omega (arith, only, mod-lt num {m = base} (omega arith)))
]

-- For a base from 2 to 16 and more rounds than the number, printnum ends. It prints padding up to
-- the width and behind it digits of the base, 0 to 9 and a to f, that write the number out without
-- a leading zero.
pub printnum-Printed :
    (k num base width padc : ℕ)
    → 1 < base
    → base ≤ 16
    → num < k
    → (cs : List ℕ) × (printnum k num base width padc ≡ done cs) × Printed num base width padc cs
unfolding printnum
printnum-Printed zero num base width padc big small fuel = absurd (omega arith)
printnum-Printed (suc k) num base width padc big small fuel =
    let below : num % base < base = mod-lt num {m = base} (omega arith) in
    let digit : num % base < 16 = omega (arith, below) in
    let c = digit_char (num % base) in
    elim (dec_lt num base) [
      | yes less ↦
          let one_digit : num % base ≡ num = mod-eq_of_lt less in
          (
            replicate (width - 1) padc ++ c ∷ [],
            rw (lt→leb base num less) refl,
            record {
              digits = c ∷ [];
              padded = refl;
              value =
                  omega (arith, one_value base c, one_digit, char_digit_char (num % base) digit);
              some_digit = omega arith;
              each = (digit_char-IsDigit base (num % base) below small, tt);
              leading = tt;
            },
          )
      | no more ↦
          let (front, run, p) =
            printnum-Printed k (num / base) base (width - 1) padc big small
              (omega (arith, div_less num base big (omega arith))) in
          let pads : width - length (p.digits ++ c ∷ []) ≡ width - 1 - length p.digits =
            omega (arith, length-snoc c p.digits) in
          (
            front ++ c ∷ [],
            rw (le→leb base num (omega arith), run) refl,
            record {
              digits = p.digits ++ c ∷ [];
              padded =
                  ap (λ l. l ++ c ∷ []) p.padded
                  ∙ (append_assoc (replicate (width - 1 - length p.digits) padc) p.digits (c ∷ [])
                      ∙ ap (λ n. replicate n padc ++ (p.digits ++ c ∷ [])) (sym pads));
              value =
                  read_digits-snoc base 0 c p.digits
                  ∙ rw (p.value, char_digit_char (num % base) digit) (quotient num base);
              some_digit = omega (arith, length-snoc c p.digits);
              each =
                  All-snoc base c p.digits p.each
                    (digit_char-IsDigit base (num % base) below small);
              leading =
                  NoLeadingZero-snoc base c p.digits
                    (omega (arith, p.value, quotient_pos num base big (omega arith))) p.leading;
            },
          )
    ]
