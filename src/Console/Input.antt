-- ===== src/Console/Input.antt =====
-- How `getchar` of kern/libs/stdio.c waits for a character.
use lab.Base.{ℕ, zero, suc}
use lab.Strings.{ℤ}
use lab.Console.{cons_getc}

module _ {S : Type 0} (sbi_call : ℕ → ℕ → ℕ → ℕ → S → ℕ × S) where
  -- The firmware's state after n polls.
  unfoldable pub polled : ℕ → S → S
  polled zero s = s
  polled (suc n) s = polled n (cons_getc sbi_call s).1

  -- What the poll behind n others answers.
  abbrev pub answer : ℕ → S → ℤ
  answer n s = (cons_getc sbi_call (polled n s)).0
