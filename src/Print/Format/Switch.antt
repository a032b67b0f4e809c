-- ===== src/Print/Format/Switch.antt =====
-- What one round of `vprintfmt` behind the flags of an escape does.
use lab.Base.{
  ℕ, zero, suc, ◌+◌, ◌-◌, ◌≤◌, ◌<◌, ◌≡◌, ◌≢◌, refl, ap as cong, ◌∙◌, false, ◌&&◌, leb, ne→==,
  length, u32, u64, List, [], ◌∷◌, ◌++◌, append-nil, none, some, Run, done, arith,
}
use lab.Strings.{Memory, ℤ, pos, negsuc}
use lab.Strings.Text.{Text}
use lab.Print.Number.{Printed, printnum-Printed}
use lab.Print.Format.{
  Args, rest_args, Escape, Literals, getint, getuint, finished, start, count, format_loop, switch,
  finish, print_number, print_signed, print_string, string_chars, spend, shown,
}
use lab.Print.Format.Pieces.{
  Radix, radix_char, base, decimal, octal, hexadecimal, Field, width, pad, padding, PrintsInt,
  read_width,
}
use lab.Print.Format.Escapes.{escape, width_of, Reached}

count_width : (w : List ℕ) → count (width_of w) ≡ read_width 0 w
unfolding read_width
count_width [] = refl
count_width (c ∷ cs) = refl

abbrev pub escape_of : Field → Escape
escape_of f = escape (padding f.zeros) (width_of f.width) f.longs

pub print_number-Printed :
    (f : Field) (num b : ℕ)
    → 1 < b
    → b ≤ 16
    → (cs : List ℕ) × (print_number (escape_of f) num b ≡ done cs)
      × Printed num b (width f) (pad f) cs
unfolding print_number
print_number-Printed f num b lo hi =
    rw (count_width f.width) (
      printnum-Printed (num + 1) num b (read_width 0 f.width) (padding f.zeros) lo hi (omega arith))

pub print_signed-PrintsInt :
    (f : Field) (n : ℤ)
    → (cs : List ℕ) × (print_signed (escape_of f) n ≡ done cs) × PrintsInt f n cs
unfolding print_signed
print_signed-PrintsInt f (pos n) = print_number-Printed f n 10 (omega arith) (omega arith)
print_signed-PrintsInt f (negsuc n) =
    let (ds, run, p) = print_number-Printed f (n + 1) 10 (omega arith) (omega arith) in
    (45 ∷ ds, rw run refl, (ds, refl, p))

string_chars_lem :
    (k p : ℕ) (m : Memory) (xs : List ℕ)
    → Text m p xs
    → length xs < k
    → string_chars k p (negsuc 0) false m ≡ done xs
unfolding string_chars spend shown
string_chars_lem zero p m xs t h = absurd (omega arith)
string_chars_lem (suc k) p m [] t h = rw t refl
string_chars_lem (suc k) p m (x ∷ xs) t h =
    rw (t.0, ne→== x 0 t.1, string_chars_lem k (p + 1) m xs t.2 (omega arith)) refl

pub print_string_lem :
    (k p : ℕ) (m : Memory) (xs : List ℕ)
    → Text m p xs
    → length xs < k
    → print_string k start p m ≡ done xs
unfolding print_string start
print_string_lem k p m xs t h =
    let nothing : 0 - length xs ≡ 0 = omega arith in
    rw (string_chars_lem k p m xs t h, nothing) (cong done (append-nil xs))

module _ (lit : Literals) (m : Memory) where
  -- One escape is finished.
  pub conversion :
      (e : Escape) (k p : ℕ) (ap ap' : Args) (out cs : List ℕ)
      → switch lit k e p ap m ≡ done (finished out (p + 1) ap')
      → format_loop lit k none (p + 1) ap' m ≡ done cs
      → format_loop lit (suc k) (some e) p ap m ≡ done (out ++ cs)
  unfolding format_loop
  conversion e k p ap ap' out cs h g = rw (h, g) refl

  -- One that stands behind a field.
  pub convert :
      (f : Field) {ap : Args} {slack : ℕ} {r : Run (List ℕ)} {xs : List ℕ}
      (x : Reached lit ap m slack r (escape_of f) xs) (ap' : Args) (out cs : List ℕ)
      → 0 < x.rounds
      → switch lit (x.rounds - 1) (escape_of f) x.place ap m ≡ done (finished out (x.place + 1) ap')
      → format_loop lit (x.rounds - 1) none (x.place + 1) ap' m ≡ done cs
      → r ≡ done (out ++ cs)
  convert f {ap} x ap' out cs left h g =
      let some_round : x.rounds ≡ suc (x.rounds - 1) = omega arith in
      x.run
      ∙ (cong (λ n. format_loop lit n (some (escape_of f)) x.place ap m) some_round
          ∙ conversion (escape_of f) (x.rounds - 1) x.place ap ap' out cs h g)

  pub switch_radix :
      (r : Radix) (e : Escape) (k p : ℕ) (ap : Args) (out : List ℕ)
      → m p ≡ radix_char r
      → print_number e (getuint ap e.lflag) (base r) ≡ done out
      → switch lit k e p ap m ≡ done (finished out (p + 1) (rest_args ap))
  unfolding switch finish
  switch_radix decimal e k p ap out h g = rw (h, g) refl
  switch_radix octal e k p ap out h g = rw (h, g) refl
  switch_radix hexadecimal e k p ap out h g = rw (h, g) refl

  pub switch_signed :
      (e : Escape) (k p : ℕ) (ap : Args) (out : List ℕ)
      → m p ≡ 100
      → print_signed e (getint ap e.lflag) ≡ done out
      → switch lit k e p ap m ≡ done (finished out (p + 1) (rest_args ap))
  unfolding switch finish
  switch_signed e k p ap out h g = rw (h, g) refl

  pub switch_string :
      (k p : ℕ) (ap : Args) (out : List ℕ)
      → m p ≡ 115
      → ap 0 ≢ 0
      → print_string k start (ap 0) m ≡ done out
      → switch lit k start p ap m ≡ done (finished out (p + 1) (rest_args ap))
  unfolding switch finish
  switch_string k p ap out h ne g = rw (h, ne→== (ap 0) 0 ne, g) refl

  pub switch_percent :
      (k p : ℕ) (ap : Args)
      → m p ≡ 37
      → switch lit k start p ap m ≡ done (finished (37 ∷ []) (p + 1) ap)
  unfolding switch
  switch_percent k p ap h = rw h refl

  pub switch_char :
      (k p : ℕ) (ap : Args)
      → m p ≡ 99
      → switch lit k start p ap m ≡ done (finished (u32 (ap 0) ∷ []) (p + 1) (rest_args ap))
  unfolding switch
  switch_char k p ap h = rw h refl

  pub switch_pointer :
      (e : Escape) (k p : ℕ) (ap : Args) (out : List ℕ)
      → m p ≡ 112
      → print_number e (u64 (ap 0)) 16 ≡ done out
      → switch lit k e p ap m ≡ done (finished (48 ∷ 120 ∷ out) (p + 1) (rest_args ap))
  unfolding switch finish
  switch_pointer e k p ap out h g = rw (h, g) refl

  pub radix_not_digit : (r : Radix) → (leb 48 (radix_char r) && leb (radix_char r) 57) ≡ false
  radix_not_digit decimal = refl
  radix_not_digit octal = refl
  radix_not_digit hexadecimal = refl

  pub base_range : (r : Radix) → (1 < base r) × (base r ≤ 16)
  base_range decimal = omega arith
  base_range octal = omega arith
  base_range hexadecimal = omega arith
