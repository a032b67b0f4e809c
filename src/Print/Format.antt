-- ===== src/Print/Format.antt =====
-- `vprintfmt` of libs/printfmt.c and the functions that call it. The format string and the strings
-- that it prints stand in a byte memory; what `putch` is given is a list of characters. A `va_list` is
-- the sequence of the 64-bit words from its place on, as RISC-V passes variable arguments.
--
-- `width` and `precision` are integers without a bound: an `int` that overflows has no meaning in C.
-- The loops take as many rounds as their first argument says.
pub mod Escapes
pub mod Pieces
pub mod Render
pub mod Switch
mod Tests
use lab.Base.{
  ℕ, zero, suc, ◌+◌, ◌-◌, ◌*◌, ◌^◌, Bool, true, false, not, ◌&&◌, ◌||◌, ltb, leb, ◌==◌,
  if◌then◌else◌, u32, u64, length, List, [], ◌∷◌, ◌++◌, Option, none, some, Run, done, out_of_fuel,
  ◌>>=◌,
}
use lab.Strings.{Memory, ℤ, pos, negsuc, strnlen}
use lab.Print.{replicate, printnum, vsnprintf}

abbrev pub Args : Type 0
Args = ℕ → ℕ

abbrev pub rest_args : Args → Args
rest_args ap = λ i. ap (i + 1)

-- The `int` and the `long long` that a word of 32 or 64 bits stands for.
unfoldable pub signed : ℕ → ℕ → ℤ
signed bits w = if ltb w (2 ^ (bits - 1)) then pos w else negsuc (2 ^ bits - 1 - w)

unfoldable pub getuint : Args → ℕ → ℕ
getuint ap lflag = if lflag == 0 then u32 (ap 0) else u64 (ap 0)

unfoldable pub getint : Args → ℕ → ℤ
unfolding signed
getint ap lflag = if lflag == 0 then signed 32 (u32 (ap 0)) else signed 64 (u64 (ap 0))

-- The variables of one %-escape.
pub record Escape : Type 0 where
  pub padc : ℕ
  pub width : ℤ
  pub precision : ℤ
  pub lflag : ℕ
  pub altflag : Bool

unfoldable pub start : Escape
start = record { padc = 32; width = negsuc 0; precision = negsuc 0; lflag = 0; altflag = false }

abbrev pub is_negative : ℤ → Bool
is_negative (pos n) = false
is_negative (negsuc n) = true

-- What counts of a width: it is only compared with 0 and counted down.
abbrev pub count : ℤ → ℕ
count (pos n) = n
count (negsuc n) = 0

-- An `int` as a `size_t`.
unfoldable pub as_size : ℤ → ℕ
as_size (pos n) = n
as_size (negsuc n) = 2 ^ 64 - 1 - n

abbrev pub is_digit : ℕ → Bool
is_digit c = leb 48 c && leb c 57

-- The loop over the digits of a width.
unfoldable pub read_number : ℕ → ℕ → ℕ → ℕ → Memory → Run (ℕ × ℕ)
read_number zero precision ch fmt m = out_of_fuel
read_number (suc k) precision ch fmt m =
    let value = precision * 10 + (ch - 48) in
    let rest = read_number k value (m fmt) (fmt + 1) m in
    if is_digit (m fmt) then rest else done (value, fmt)

unfoldable pub process_precision : Escape → Escape
process_precision e =
    if is_negative e.width then record e { width = e.precision; precision = negsuc 0 } else e

-- `precision < 0 || -- precision >= 0`, with the precision that is left.
unfoldable pub spend : ℤ → Option ℤ
spend (pos zero) = none
spend (pos (suc n)) = some (pos n)
spend (negsuc n) = some (negsuc n)

unfoldable pub shown : Bool → ℕ → ℕ
shown altflag ch = if altflag && (ltb ch 32 || ltb 126 ch) then 63 else ch

-- The characters that the loop over a string prints.
unfoldable pub string_chars : ℕ → ℕ → ℤ → Bool → Memory → Run (List ℕ)
unfolding spend
string_chars zero p precision altflag m = out_of_fuel
string_chars (suc k) p precision altflag m =
    let rest : Run (List ℕ) = elim (spend precision) [
      | none ↦ done []
      | some left ↦ string_chars k (p + 1) left altflag m >>= λ cs. done (shown altflag (m p) ∷ cs)
    ] in
    if m p == 0 then done [] else rest

unfoldable pub print_string : ℕ → Escape → ℕ → Memory → Run (List ℕ)
unfolding string_chars
print_string k e p m = do
  let padded = ltb 0 (count e.width) && not (e.padc == 45)
  let before = if padded then count e.width - strnlen p (as_size e.precision) m else 0
  let left = if padded then 0 else count e.width
  cs ← string_chars k p e.precision e.altflag m
  done (replicate before e.padc ++ cs ++ replicate (left - length cs) 32)

-- `printnum` of a number of 64 bits.
unfoldable pub print_number : Escape → ℕ → ℕ → Run (List ℕ)
print_number e num base = printnum (num + 1) num base (count e.width) e.padc

-- The case 'd'.
unfoldable pub print_signed : Escape → ℤ → Run (List ℕ)
unfolding print_number
print_signed e (pos n) = print_number e n 10
print_signed e (negsuc n) = print_number e (n + 1) 10 >>= λ cs. done (45 ∷ cs)

-- `for (fmt --; fmt[-1] != '%'; fmt --)` from the character behind the pointer.
unfoldable pub rewind : ℕ → Memory → ℕ
rewind zero m = zero
rewind (suc fmt) m = let rest = rewind fmt m in if m fmt == 37 then suc fmt else rest

-- The addresses of the literals "(null)", "error %d" and "%s", and the table `error_string`.
pub record Literals : Type 0 where
  pub null_text : ℕ
  pub error_format : ℕ
  pub string_format : ℕ
  pub error_string : ℕ → ℕ

-- What the `switch` does: another round of it, characters and the end of the escape, or a call of
-- `printfmt` before that end.
pub data Next : Type 0 where
  reswitch : Escape → ℕ → Args → Next
  finished : List ℕ → ℕ → Args → Next
  nested : ℕ → Args → ℕ → Args → Next

unfoldable pub finish : Run (List ℕ) → ℕ → Args → Run Next
finish r fmt ap = r >>= λ cs. done (finished cs fmt ap)

abbrev pub one_arg : ℕ → Args
one_arg w = λ i. w

module _ (lit : Literals) where
  -- The case 'e'. `MAXERROR` is 6.
  unfoldable pub print_error : ℤ → ℕ → Args → Next
  print_error code fmt ap =
      let err : ℕ = elim code [ pos n ↦ n | negsuc n ↦ n + 1 ] in
      if ltb 6 err || lit.error_string err == 0
      then nested lit.error_format (one_arg err) fmt ap
      else nested lit.string_format (one_arg (lit.error_string err)) fmt ap

  -- The `switch` on `ch = *fmt ++`; `fmt` is the pointer before the increment.
  unfoldable pub switch : ℕ → Escape → ℕ → Args → Memory → Run Next
  unfolding process_precision print_string print_number print_signed finish print_error signed
      getint
  switch k e fmt ap m =
      let ch = m fmt in
      let next = fmt + 1 in
      let ap' = rest_args ap in
      if ch == 45
      then done (reswitch (record e { padc = 45 }) next ap)
      else if ch == 48
      then done (reswitch (record e { padc = 48 }) next ap)
      else if is_digit ch
      then (read_number k 0 ch next m >>= λ r.
          done (reswitch (process_precision (record e { precision = pos r.0 })) r.1 ap))
      else if ch == 42
      then done
          (reswitch (process_precision (record e { precision = signed 32 (u32 (ap 0)) })) next ap')
      else if ch == 46
      then done (reswitch (if is_negative e.width then record e { width = pos 0 } else e) next ap)
      else if ch == 35
      then done (reswitch (record e { altflag = true }) next ap)
      else if ch == 108
      then done (reswitch (record e { lflag = e.lflag + 1 }) next ap)
      else if ch == 99
      then done (finished (u32 (ap 0) ∷ []) next ap')
      else if ch == 101
      then done (print_error (signed 32 (u32 (ap 0))) next ap')
      else if ch == 115
      then finish (print_string k e (if ap 0 == 0 then lit.null_text else ap 0) m) next ap'
      else if ch == 100
      then finish (print_signed e (getint ap e.lflag)) next ap'
      else if ch == 117
      then finish (print_number e (getuint ap e.lflag) 10) next ap'
      else if ch == 111
      then finish (print_number e (getuint ap e.lflag) 8) next ap'
      else if ch == 112
      then finish (print_number e (u64 (ap 0)) 16 >>= λ cs. done (48 ∷ 120 ∷ cs)) next ap'
      else if ch == 120
      then finish (print_number e (getuint ap e.lflag) 16) next ap'
      else if ch == 37
      then done (finished (37 ∷ []) next ap)
      else done (finished (37 ∷ []) (rewind fmt m) ap)

  -- The loop of `vprintfmt`: in the text between the escapes, or in an escape.
  unfoldable pub format_loop : ℕ → Option Escape → ℕ → Args → Memory → Run (List ℕ)
  format_loop zero mode fmt ap m = out_of_fuel
  format_loop (suc k) none fmt ap m =
      let ch = m fmt in
      let escape = format_loop k (some start) (fmt + 1) ap m in
      let text = format_loop k none (fmt + 1) ap m >>= λ cs. done (ch ∷ cs) in
      if ch == 37 then escape else if ch == 0 then done [] else text
  format_loop (suc k) (some e) fmt ap m = switch k e fmt ap m >>= λ n. elim n [
    | reswitch e' fmt' ap' ↦ format_loop k (some e') fmt' ap' m
    | finished out fmt' ap' ↦ format_loop k none fmt' ap' m >>= λ cs. done (out ++ cs)
    | nested format args fmt' ap' ↦ format_loop k none format args m >>= λ out.
        format_loop k none fmt' ap' m >>= λ cs. done (out ++ cs)
  ]

  unfoldable pub vprintfmt : ℕ → ℕ → Args → Memory → Run (List ℕ)
  vprintfmt k fmt ap m = format_loop k none fmt ap m

  unfoldable pub printfmt : ℕ → ℕ → Args → Memory → Run (List ℕ)
  unfolding vprintfmt
  printfmt k fmt args m = vprintfmt k fmt args m

  -- The buffer must not overlap what is printed: the characters are made before they are stored.
  unfoldable pub snprintf : ℕ → ℕ → ℕ → ℕ → Args → Memory → Run (Option (ℕ × Memory))
  unfolding vprintfmt
  snprintf k str size fmt args m = elim (vsnprintf str size [] m) [
    | none ↦ done none
    | some _ ↦ vprintfmt k fmt args m >>= λ cs. done (vsnprintf str size cs m)
  ]
