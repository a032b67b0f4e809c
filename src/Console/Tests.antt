-- ===== src/Console/Tests.antt =====
-- The console's theorems at a firmware that has a queue of answers and keeps what it is given.
use lab.Base.{
  ℕ, ◌+◌, ◌≡◌, ltb, ◌==◌, if◌then◌else◌, length, false, true, List, [], ◌∷◌, ◌++◌, done, arith,
}
use lab.Strings.{Memory}
use lab.Strings.Text.{Text}
use lab.Print.Format.{Args, Literals}
use lab.Print.Format
use lab.Print.Format.Pieces.{Field, Piece, text, signed, string, encode, Fits, Prints}
use lab.Console.{cprintf, panic}
use lab.Console.Output.{sent, cprintf-Prints, panic-Prints}

pub record Firmware : Type 0 where
  pub answers : List ℕ
  pub output : List ℕ

abbrev next_answer : List ℕ → ℕ
next_answer [] = 0
next_answer (c ∷ cs) = c

abbrev other_answers : List ℕ → List ℕ
other_answers [] = []
other_answers (c ∷ cs) = cs

-- Call 1 prints the byte, call 2 answers with the next character.
abbrev call : ℕ → ℕ → ℕ → ℕ → Firmware → ℕ × Firmware
call n a b c s =
    if n == 1
    then (0, record s { output = s.output ++ a ∷ [] })
    else (next_answer s.answers, record s { answers = other_answers s.answers })

abbrev quiet : Firmware
quiet = record { answers = 0 ∷ 0 ∷ 97 ∷ []; output = [] }

-- The bytes of a list from an address on.
abbrev at_address : ℕ → List ℕ → Memory
at_address p [] = λ q. 0
at_address p (x ∷ xs) = λ q. if q == p then x else at_address (p + 1) xs q

-- The head of a panic at 100, "a.c" at 200, a message at 300 and a newline at 400.
abbrev memory : Memory
memory = λ q.
    if ltb q 200
    then at_address 100
        (107 ∷ 101 ∷ 114 ∷ 110 ∷ 101 ∷ 108 ∷ 32 ∷ 112 ∷ 97 ∷ 110 ∷ 105 ∷ 99 ∷ 32 ∷ 97 ∷ 116 ∷ 32
          ∷ 37 ∷ 115 ∷ 58 ∷ 37 ∷ 100 ∷ 58 ∷ 10 ∷ 32 ∷ 32 ∷ 32 ∷ 32 ∷ [])
        q
    else if ltb q 300
    then at_address 200 (97 ∷ 46 ∷ 99 ∷ []) q
    else if ltb q 400
    then at_address 300 (110 ∷ 111 ∷ 32 ∷ 37 ∷ 100 ∷ []) q
    else at_address 400 (10 ∷ []) q

abbrev literals : Literals
literals = record {
  null_text = 500;
  error_format = 510;
  string_format = 520;
  error_string = λ e. 0;
}

abbrev plain_field : Field
plain_field = record { zeros = false; width = []; longs = 0 }

abbrev head : List Piece
head =
    text 107
    ∷ text 101
    ∷ text 114
    ∷ text 110
    ∷ text 101
    ∷ text 108
    ∷ text 32
    ∷ text 112
    ∷ text 97
    ∷ text 110
    ∷ text 105
    ∷ text 99
    ∷ text 32
    ∷ text 97
    ∷ text 116
    ∷ text 32
    ∷ string
    ∷ text 58
    ∷ signed plain_field
    ∷ text 58
    ∷ text 10
    ∷ text 32
    ∷ text 32
    ∷ text 32
    ∷ text 32
    ∷ []

abbrev complaint : List Piece
complaint = text 110 ∷ text 111 ∷ text 32 ∷ signed plain_field ∷ []

abbrev place : Args
place = λ i. if i == 0 then 200 else 95

head-Text : Text memory 100 (encode head)
unfolding encode
head-Text = omega arith

complaint-Text : Text memory 300 (encode complaint)
unfolding encode
complaint-Text = omega arith

file-Text : Text memory 200 (97 ∷ 46 ∷ 99 ∷ [])
file-Text = omega arith

head-Fits : Fits memory 10 head place
unfolding Fits
head-Fits = (
  record {
    bytes = 97 ∷ 46 ∷ 99 ∷ [];
    text = file-Text;
    nonnull = omega arith;
    short = omega arith;
  },
  tt,
)

cprintf-Prints_example :
    (cs : List ℕ) × (cprintf call literals 50 100 place memory quiet
      ≡ done (length cs, sent call cs quiet))
    × Prints memory head place cs
unfolding encode
cprintf-Prints_example =
    cprintf-Prints call literals memory head 10 50 100 place quiet (omega arith) head-Text head-Fits
      (omega arith)

panic-Prints_example :
    (cs : List ℕ) × (ds : List ℕ) × (panic call literals 50 100 400 200 95 300
        (λ i. 7)
        memory
        (false, quiet)
      ≡ done (true, sent call (cs ++ (ds ++ 10 ∷ [])) quiet))
    × Prints memory head place cs
    × Prints memory complaint (λ i. 7) ds
    × (panic call literals 50 100 400 200 95 300 (λ i. 7) memory (true, quiet) ≡ done (true, quiet))
unfolding encode Fits
panic-Prints_example =
    panic-Prints call literals memory head complaint 10 50 100 400 200 95 300 (λ i. 7) quiet
      (omega arith) head-Text head-Fits (omega arith) (omega arith) complaint-Text tt (omega arith)
      (omega arith) (omega arith)
