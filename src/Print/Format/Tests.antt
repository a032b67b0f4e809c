-- ===== src/Print/Format/Tests.antt =====
-- A test of the format strings, and the theorem at "%d: 0x%016lx %s\n%c%p".
use lab.Base.{
  All, ℕ, ◌+◌, ◌-◌, ◌^◌, ◌≡◌, ltb, ◌==◌, if◌then◌else◌, true, false, List, [], ◌∷◌, done, arith,
}
use lab.Strings.{Memory}
use lab.Strings.Text.{Text}
use lab.Print.Format.{Args, Literals, vprintfmt}
use lab.Print.Format.Pieces.{
  char, pointer, Field, Piece, text, unsigned, signed, string, hexadecimal, encode, IsValid, Fits,
  Prints,
}
use lab.Print.Format.Render.{vprintfmt-Prints}

-- The bytes of a list from an address on.
abbrev at_address : ℕ → List ℕ → Memory
at_address p [] = λ q. 0
at_address p (x ∷ xs) = λ q. if q == p then x else at_address (p + 1) xs q

abbrev plain_field : Field
plain_field = record { zeros = false; width = []; longs = 0 }

abbrev wide_field : Field
wide_field = record { zeros = true; width = 49 ∷ 54 ∷ []; longs = 1 }

abbrev pieces : List Piece
pieces =
    signed plain_field
    ∷ text 58
    ∷ text 32
    ∷ text 48
    ∷ text 120
    ∷ unsigned wide_field hexadecimal
    ∷ text 32
    ∷ string
    ∷ text 10
    ∷ char
    ∷ pointer plain_field
    ∷ []

-- The format at 100 and "ok" at 200.
abbrev memory : Memory
memory = λ q.
    if ltb q 200
    then at_address 100
        (37 ∷ 100 ∷ 58 ∷ 32 ∷ 48 ∷ 120 ∷ 37 ∷ 48 ∷ 49 ∷ 54 ∷ 108 ∷ 120 ∷ 32 ∷ 37 ∷ 115 ∷ 10 ∷ 37
          ∷ 99 ∷ 37 ∷ 112 ∷ [])
        q
    else at_address 200 (111 ∷ 107 ∷ []) q

-- -1, 255 and, for the others, the string's address.
abbrev args : Args
args = λ i. if i == 0 then 2 ^ 32 - 1 else if i == 1 then 255 else 200

abbrev literals : Literals
literals = record {
  null_text = 300;
  error_format = 310;
  string_format = 320;
  error_string = λ e. 0;
}

pieces-IsValid : All IsValid pieces
pieces-IsValid = omega arith

format-Text : Text memory 100 (encode pieces)
unfolding encode
format-Text = omega arith

ok-Text : Text memory 200 (111 ∷ 107 ∷ [])
ok-Text = omega arith

args-Fits : Fits memory 10 pieces args
unfolding Fits
args-Fits = (
  record { bytes = 111 ∷ 107 ∷ []; text = ok-Text; nonnull = omega arith; short = omega arith },
  tt,
)

vprintfmt-Prints_example :
    (cs : List ℕ) × (vprintfmt literals 40 100 args memory ≡ done cs) × Prints memory pieces args cs
unfolding encode
vprintfmt-Prints_example =
    vprintfmt-Prints literals memory pieces 10 40 100 args pieces-IsValid format-Text args-Fits
      (omega arith)
