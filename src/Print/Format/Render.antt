-- ===== src/Print/Format/Render.antt =====
-- `vprintfmt` prints what the pieces of its format string say.
use lab.Base.{
  All, ℕ, zero, suc, ◌+◌, ◌-◌, ◌<◌, ◌≡◌, refl, ne→==, length, u32, u64, List, [], ◌∷◌, ◌++◌, none,
  done, arith,
}
use lab.Strings.{Memory}
use lab.Strings.Text.{Text}
use lab.Print.Format.{Args, rest_args, Literals, getint, getuint, start, format_loop, vprintfmt}
use lab.Print.Format.Pieces.{
  radix_char, base, Piece, text, percent, unsigned, char, pointer, signed, string, encode, IsValid,
  Fits, Prints,
}
use lab.Print.Format.Escapes.{field_step}
use lab.Print.Format.Switch.{
  escape_of, print_number-Printed, print_signed-PrintsInt, print_string_lem, conversion, convert,
  switch_radix, switch_signed, switch_string, switch_percent, switch_char, switch_pointer,
  radix_not_digit, base_range,
}

module _ (lit : Literals) (m : Memory) where
  -- With `slack` more rounds than bytes, and strings of fewer bytes than that.
  format_loop-Prints :
      (ps : List Piece) (slack k p : ℕ) (ap : Args)
      → All IsValid ps
      → Text m p (encode ps)
      → Fits m slack ps ap
      → slack + length (encode ps) < k
      → (cs : List ℕ) × (format_loop lit k none p ap m ≡ done cs) × Prints m ps ap cs
  unfolding format_loop encode Prints Fits
  format_loop-Prints ps slack zero p ap v t g h = absurd (omega arith)
  format_loop-Prints [] slack (suc k) p ap v t g h = ([], rw t refl, refl)
  format_loop-Prints (text c ∷ ps) slack (suc k) p ap v t g h =
      let (cs, run, q) = format_loop-Prints ps slack k (p + 1) ap v.1 t.2 g (omega arith) in
      (c ∷ cs, rw (t.0, ne→== c 37 v.0.1, ne→== c 0 v.0.0, run) refl, (cs, refl, q))
  format_loop-Prints (percent ∷ ps) slack (suc zero) p ap v t g h = absurd (omega arith)
  format_loop-Prints (percent ∷ ps) slack (suc (suc k)) p ap v t g h =
      let (cs, run, q) = format_loop-Prints ps slack k (p + 1 + 1) ap v.1 t.2.2 g (omega arith) in
      (
        37 ∷ cs,
        rw (t.0) (
            conversion lit m start k (p + 1) ap ap (37 ∷ []) cs
              (switch_percent lit m k (p + 1) ap t.2.0) run),
        (cs, refl, q),
      )
  format_loop-Prints (char ∷ ps) slack (suc zero) p ap v t g h = absurd (omega arith)
  format_loop-Prints (char ∷ ps) slack (suc (suc k)) p ap v t g h =
      let (cs, run, q) =
        format_loop-Prints ps slack k (p + 1 + 1) (rest_args ap) v.1 t.2.2 g (omega arith) in
      (
        u32 (ap 0) ∷ cs,
        rw (t.0) (
            conversion lit m start k (p + 1) ap (rest_args ap) (u32 (ap 0) ∷ []) cs
              (switch_char lit m k (p + 1) ap t.2.0) run),
        (cs, refl, q),
      )
  format_loop-Prints (string ∷ ps) slack (suc zero) p ap v t g h = absurd (omega arith)
  format_loop-Prints (string ∷ ps) slack (suc (suc k)) p ap v t g h =
      let (cs, run, q) =
        format_loop-Prints ps slack k (p + 1 + 1) (rest_args ap) v.1 t.2.2 g.1 (omega arith) in
      let a = g.0 in
      let out = print_string_lem k (ap 0) m a.bytes a.text (omega (arith, a.short)) in
      (
        a.bytes ++ cs,
        rw (t.0) (
            conversion lit m start k (p + 1) ap (rest_args ap) a.bytes cs
              (switch_string lit m k (p + 1) ap a.bytes t.2.0 a.nonnull out) run),
        (a.bytes, cs, refl, a.text, q),
      )
  format_loop-Prints (unsigned f r ∷ ps) slack (suc k) p ap v t g h =
      let x =
        field_step lit ap m slack f k (p + 1) (radix_char r) (encode ps) v.0
          (radix_not_digit lit m r) t.2 (omega arith) in
      let j = x.rounds - 1 in
      let (cs, run, q) =
        format_loop-Prints ps slack j (x.place + 1) (rest_args ap) v.1 x.behind.2 g
          (omega (arith, x.fuel)) in
      let (ds, out, d) =
        print_number-Printed f (getuint ap f.longs) (base r) (base_range lit m r).0
          (base_range lit m r).1 in
      (
        ds ++ cs,
        rw (t.0) (
            convert lit m f x (rest_args ap) ds cs (omega (arith, x.fuel))
              (switch_radix lit m r (escape_of f) j x.place ap ds x.behind.0 out) run),
        (ds, cs, refl, d, q),
      )
  format_loop-Prints (signed f ∷ ps) slack (suc k) p ap v t g h =
      let x = field_step lit ap m slack f k (p + 1) 100 (encode ps) v.0 refl t.2 (omega arith) in
      let j = x.rounds - 1 in
      let (cs, run, q) =
        format_loop-Prints ps slack j (x.place + 1) (rest_args ap) v.1 x.behind.2 g
          (omega (arith, x.fuel)) in
      let (ds, out, d) = print_signed-PrintsInt f (getint ap f.longs) in
      (
        ds ++ cs,
        rw (t.0) (
            convert lit m f x (rest_args ap) ds cs (omega (arith, x.fuel))
              (switch_signed lit m (escape_of f) j x.place ap ds x.behind.0 out) run),
        (ds, cs, refl, d, q),
      )
  format_loop-Prints (pointer f ∷ ps) slack (suc k) p ap v t g h =
      let x = field_step lit ap m slack f k (p + 1) 112 (encode ps) v.0 refl t.2 (omega arith) in
      let j = x.rounds - 1 in
      let (cs, run, q) =
        format_loop-Prints ps slack j (x.place + 1) (rest_args ap) v.1 x.behind.2 g
          (omega (arith, x.fuel)) in
      let (ds, out, d) = print_number-Printed f (u64 (ap 0)) 16 (omega arith) (omega arith) in
      (
        48 ∷ 120 ∷ ds ++ cs,
        rw (t.0) (
            convert lit m f x (rest_args ap) (48 ∷ 120 ∷ ds) cs (omega (arith, x.fuel))
              (switch_pointer lit m (escape_of f) j x.place ap ds x.behind.0 out) run),
        (ds, cs, refl, d, q),
      )

-- A format string whose pieces are text, %%, %c, unsigned numbers, signed numbers and %p with
-- fields, and %s is printed as the pieces say, given as many rounds as it has bytes and more
-- rounds than any string that is printed has bytes: vprintfmt ends, numbers are padded to their
-- width and written out in digits of their base, 0 to 9 and a to f, without a leading zero, and
-- the rest is copied.
pub vprintfmt-Prints :
    (lit : Literals) (m : Memory) (ps : List Piece) (slack k fmt : ℕ) (ap : Args)
    → All IsValid ps
    → Text m fmt (encode ps)
    → Fits m slack ps ap
    → slack + length (encode ps) < k
    → (cs : List ℕ) × (vprintfmt lit k fmt ap m ≡ done cs) × Prints m ps ap cs
unfolding vprintfmt
vprintfmt-Prints lit m ps slack k fmt ap v t g h =
    format_loop-Prints lit m ps slack k fmt ap v t g h
