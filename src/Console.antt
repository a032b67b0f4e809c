-- ===== src/Console.antt =====
-- libs/sbi.c, kern/driver/console.c, kern/libs/stdio.c and kern/debug/panic.c: the console. The
-- firmware behind `ecall` is a parameter: it takes the number of a call, three words and its state of
-- type S, and returns a word and the next state.
--
-- Strings and formats are read in a byte memory, as in libs/printfmt.c. The loops take as many rounds
-- as their first argument says.
pub mod Output
pub mod Input
mod Tests
use lab.Base.{
  ℕ, zero, suc, ◌+◌, ◌*◌, ◌%◌, ◌^◌, Bool, true, false, ◌==◌, if◌then◌else◌, u32, u64, List, [], ◌∷◌,
  Run, done, out_of_fuel, ◌>>=◌,
}
use lab.Strings.{Memory, ℤ, pos, negsuc}
use lab.Print.Format.{Args, Literals, signed, vprintfmt}

-- A character and the state behind it, or, on the character 0, what comes instead.
unfoldable pub unless_zero : {S : Type 0} → ℤ × S → Run (ℤ × S) → Run (ℤ × S)
unless_zero (pos zero, s) rest = rest
unless_zero (pos (suc n), s) rest = done (pos (suc n), s)
unless_zero (negsuc n, s) rest = done (negsuc n, s)

module _ {S : Type 0} (sbi_call : ℕ → ℕ → ℕ → ℕ → S → ℕ × S) where
  unfoldable pub sbi_console_putchar : ℕ → S → S
  sbi_console_putchar ch s = (sbi_call 1 ch 0 0 s).1

  unfoldable pub sbi_set_timer : ℕ → S → S
  sbi_set_timer stime_value s = (sbi_call 0 stime_value 0 0 s).1

  unfoldable pub sbi_console_getchar : S → ℤ × S
  sbi_console_getchar s = let (ret_val, s') = sbi_call 2 0 0 0 s in (signed 32 (u32 ret_val), s')

  unfoldable pub cons_putc : ℕ → S → S
  unfolding sbi_console_putchar
  cons_putc c s = sbi_console_putchar (c % 2 ^ 8) s

  unfoldable pub cons_getc : S → ℤ × S
  unfolding sbi_console_getchar
  cons_getc s = sbi_console_getchar s

  -- `*cnt` and the state.
  unfoldable pub cputch : ℕ → ℕ × S → ℕ × S
  unfolding cons_putc
  cputch c (cnt, s) = (cnt + 1, cons_putc c s)

  -- The calls of `putch` that `vprintfmt` makes, in their order.
  unfoldable pub cputch_all : List ℕ → ℕ × S → ℕ × S
  unfolding cputch
  cputch_all [] r = r
  cputch_all (c ∷ cs) r = cputch_all cs (cputch c r)

  unfoldable pub cputchar : ℕ → S → S
  unfolding cons_putc
  cputchar c s = cons_putc c s

  -- `while ((c = *str ++) != '\0') …` and the newline.
  unfoldable pub cputs_loop : ℕ → ℕ → Memory → ℕ × S → Run (ℕ × S)
  unfolding cputch
  cputs_loop zero str m r = out_of_fuel
  cputs_loop (suc k) str m r =
      let rest = cputs_loop k (str + 1) m (cputch (m str) r) in
      if m str == 0 then done (cputch 10 r) else rest

  unfoldable pub cputs : ℕ → ℕ → Memory → S → Run (ℕ × S)
  unfolding cputs_loop
  cputs k str m s = cputs_loop k str m (0, s)

  -- `while ((c = cons_getc()) == 0)`
  unfoldable pub getchar : ℕ → S → Run (ℤ × S)
  unfolding cons_getc unless_zero
  getchar zero s = out_of_fuel
  getchar (suc k) s = let rest = getchar k (cons_getc s).1 in unless_zero (cons_getc s) rest

  module _ (lit : Literals) where
    unfoldable pub vcprintf : ℕ → ℕ → Args → Memory → S → Run (ℕ × S)
    unfolding cputch_all
    vcprintf k fmt ap m s = vprintfmt lit k fmt ap m >>= λ cs. done (cputch_all cs (0, s))

    unfoldable pub cprintf : ℕ → ℕ → Args → Memory → S → Run (ℕ × S)
    unfolding vcprintf
    cprintf k fmt ap m s = vcprintf k fmt ap m s

    -- The message of `__panic` and of `__warn`: its head at the address `head`, a format for the file
    -- and the line, the message, and the newline at the address `newline`.
    unfoldable pub message : ℕ → ℕ → ℕ → ℕ → ℕ → ℕ → Args → Memory → S → Run S
    unfolding cprintf vcprintf
    message k head newline file line fmt ap m s = do
      (_, s1) ← cprintf k head (λ i. if i == 0 then file else line) m s
      (_, s2) ← vcprintf k fmt ap m s1
      (_, s3) ← cprintf k newline (λ i. 0) m s2
      done s3

    -- The flag `is_panic` and the state in the loop that `__panic` ends in.
    unfoldable pub panic : ℕ → ℕ → ℕ → ℕ → ℕ → ℕ → Args → Memory → Bool × S → Run (Bool × S)
    unfolding message
    panic k head newline file line fmt ap m (is_panic, s) =
        let printed = message k head newline file line fmt ap m s >>= λ s'. done (true, s') in
        if is_panic then done (is_panic, s) else printed

    unfoldable pub warn : ℕ → ℕ → ℕ → ℕ → ℕ → ℕ → Args → Memory → S → Run S
    unfolding message
    warn k head newline file line fmt ap m s = message k head newline file line fmt ap m s

abbrev pub is_kernel_panic : {S : Type 0} → Bool × S → Bool
is_kernel_panic r = r.0
