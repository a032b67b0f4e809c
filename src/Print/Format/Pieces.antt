-- ===== src/Print/Format/Pieces.antt =====
-- Format strings as lists of pieces, and what each piece prints.
use lab.Base.{
  ℕ, ◌+◌, ◌-◌, ◌*◌, ◌≤◌, ◌<◌, ◌≡◌, ◌≢◌, Bool, true, false, List, [], ◌∷◌, ◌++◌, length, u32, u64,
}
use lab.Strings.{Memory, ℤ, pos, negsuc}
use lab.Strings.Text.{Text}
use lab.Print.{replicate}
use lab.Print.Number.{Printed}
use lab.Print.Format.{Args, rest_args, getuint, getint}

-- `%u`, `%o` and `%x`.
pub data Radix : Type 0 where
  decimal octal hexadecimal : Radix

abbrev pub radix_char : Radix → ℕ
radix_char decimal = 117
radix_char octal = 111
radix_char hexadecimal = 120

abbrev pub base : Radix → ℕ
base decimal = 10
base octal = 8
base hexadecimal = 16

-- A number is printed with or without leading zeros, in a width given by digits, if any, and with some
-- `l`s.
pub record Field : Type 0 where
  pub zeros : Bool
  pub width : List ℕ
  pub longs : ℕ

-- A character of the text, `%%`, `%c`, an unsigned number, `%d`, `%p`, or `%s` without a width.
pub data Piece : Type 0 where
  text : ℕ → Piece
  percent : Piece
  char : Piece
  unsigned : Field → Radix → Piece
  signed : Field → Piece
  pointer : Field → Piece
  string : Piece

abbrev pub zero_flag : Bool → List ℕ → List ℕ
zero_flag true xs = 48 ∷ xs
zero_flag false xs = xs

-- A field, and what follows it.
unfoldable pub field : Field → List ℕ → List ℕ
field f xs = zero_flag f.zeros (f.width ++ (replicate f.longs 108 ++ xs))

unfoldable pub encode : List Piece → List ℕ
unfolding field
encode [] = []
encode (text c ∷ ps) = c ∷ encode ps
encode (percent ∷ ps) = 37 ∷ 37 ∷ encode ps
encode (char ∷ ps) = 37 ∷ 99 ∷ encode ps
encode (unsigned f r ∷ ps) = 37 ∷ field f (radix_char r ∷ encode ps)
encode (signed f ∷ ps) = 37 ∷ field f (100 ∷ encode ps)
encode (pointer f ∷ ps) = 37 ∷ field f (112 ∷ encode ps)
encode (string ∷ ps) = 37 ∷ 115 ∷ encode ps

-- The number that the digits of a width write out, read behind `v`.
unfoldable pub read_width : ℕ → List ℕ → ℕ
read_width v [] = v
read_width v (c ∷ cs) = read_width (v * 10 + (c - 48)) cs

abbrev pub padding : Bool → ℕ
padding true = 48
padding false = 32

abbrev pub pad : Field → ℕ
pad f = padding f.zeros

abbrev pub AllDigits : List ℕ → Type 0
AllDigits [] = Unit
AllDigits (c ∷ cs) = (48 ≤ c) × (c ≤ 57) × AllDigits cs

-- The first digit of a width is not 0.
abbrev pub IsWidth : List ℕ → Type 0
IsWidth [] = Unit
IsWidth (c ∷ cs) = (49 ≤ c) × (c ≤ 57) × AllDigits cs

abbrev pub IsValid : Piece → Type 0
IsValid (text c) = (c ≢ 0) × (c ≢ 37)
IsValid percent = Unit
IsValid char = Unit
IsValid (unsigned f r) = IsWidth f.width
IsValid (signed f) = IsWidth f.width
IsValid (pointer f) = IsWidth f.width
IsValid string = Unit

-- The bytes of the string that an argument of `%s` points to, fewer than k.
pub record Pointed (m : Memory) (k p : ℕ) : Type 0 where
  pub bytes : List ℕ
  pub text : Text m p bytes
  pub nonnull : p ≢ 0
  pub short : length bytes < k

-- The arguments of `%s` are such strings.
unfoldable pub Fits : Memory → ℕ → List Piece → Args → Type 0
Fits m k [] ap = Unit
Fits m k (text c ∷ ps) ap = Fits m k ps ap
Fits m k (percent ∷ ps) ap = Fits m k ps ap
Fits m k (char ∷ ps) ap = Fits m k ps (rest_args ap)
Fits m k (unsigned f r ∷ ps) ap = Fits m k ps (rest_args ap)
Fits m k (signed f ∷ ps) ap = Fits m k ps (rest_args ap)
Fits m k (pointer f ∷ ps) ap = Fits m k ps (rest_args ap)
Fits m k (string ∷ ps) ap = Pointed m k (ap 0) × Fits m k ps (rest_args ap)

abbrev pub width : Field → ℕ
width f = read_width 0 f.width

-- What `%d` prints for an integer: its digits in the field, behind a minus sign if it is negative.
abbrev pub PrintsInt : Field → ℤ → List ℕ → Type 0
PrintsInt f (pos n) cs = Printed n 10 (width f) (pad f) cs
PrintsInt f (negsuc n) cs = (ds : List ℕ) × (cs ≡ 45 ∷ ds) × Printed (n + 1) 10 (width f) (pad f) ds

-- What is printed for the pieces, with the arguments from `ap` on.
unfoldable pub Prints : Memory → List Piece → Args → List ℕ → Type 0
Prints m [] ap out = out ≡ []
Prints m (text c ∷ ps) ap out = (cs : List ℕ) × (out ≡ c ∷ cs) × Prints m ps ap cs
Prints m (percent ∷ ps) ap out = (cs : List ℕ) × (out ≡ 37 ∷ cs) × Prints m ps ap cs
Prints m (char ∷ ps) ap out =
    (cs : List ℕ) × (out ≡ u32 (ap 0) ∷ cs) × Prints m ps (rest_args ap) cs
Prints m (unsigned f r ∷ ps) ap out =
    (ds : List ℕ) × (cs : List ℕ) × (out ≡ ds ++ cs)
    × Printed (getuint ap f.longs) (base r) (width f) (pad f) ds
    × Prints m ps (rest_args ap) cs
Prints m (signed f ∷ ps) ap out =
    (ds : List ℕ) × (cs : List ℕ) × (out ≡ ds ++ cs)
    × PrintsInt f (getint ap f.longs) ds
    × Prints m ps (rest_args ap) cs
Prints m (pointer f ∷ ps) ap out =
    (ds : List ℕ) × (cs : List ℕ) × (out ≡ 48 ∷ 120 ∷ ds ++ cs)
    × Printed (u64 (ap 0)) 16 (width f) (pad f) ds
    × Prints m ps (rest_args ap) cs
Prints m (string ∷ ps) ap out =
    (xs : List ℕ) × (cs : List ℕ) × (out ≡ xs ++ cs)
    × Text m (ap 0) xs
    × Prints m ps (rest_args ap) cs
