-- ===== src/Print/Format/Escapes.antt =====
-- How `format_loop` goes through the flags, the width and the `l`s of an escape.
use lab.Base.{
  ℕ, zero, suc, ◌+◌, ◌-◌, ◌*◌, ◌<◌, ◌≡◌, refl, ◌∙◌, Bool, true, false, ◌&&◌, leb, ◌==◌, length,
  length-append, List, [], ◌∷◌, ◌++◌, some, Run, done, arith,
}
use lab.Strings.{Memory, ℤ, pos, negsuc}
use lab.Strings.Text.{Text}
use lab.Print.{replicate}
use lab.Print.Format.{Args, Escape, Literals, start, format_loop, switch, read_number}
use lab.Print.Format.Pieces.{AllDigits, IsWidth, Field, field, padding, read_width, zero_flag}

-- An escape with no precision and without '#'.
abbrev pub escape : ℕ → ℤ → ℕ → Escape
escape padc width lflag = record {
  padc = padc;
  width = width;
  precision = negsuc 0;
  lflag = lflag;
  altflag = false;
}

-- A width that is given, or none.
abbrev pub width_of : List ℕ → ℤ
width_of [] = negsuc 0
width_of (c ∷ cs) = pos (read_width 0 (c ∷ cs))

read_number_lem :
    (m : Memory) (cs : List ℕ) (k v ch p x : ℕ) (xs : List ℕ)
    → AllDigits cs
    → (leb 48 x && leb x 57) ≡ false
    → Text m p (cs ++ x ∷ xs)
    → length cs < k
    → (p' : ℕ) × (read_number k v ch p m ≡ done (read_width v (ch ∷ cs), p')) × Text m p' (x ∷ xs)
unfolding read_number read_width
read_number_lem m cs zero v ch p x xs d n t h = absurd (omega arith)
read_number_lem m [] (suc k) v ch p x xs d n t h = (p, rw (t.0, n) refl, t)
read_number_lem m (c ∷ cs) (suc k) v ch p x xs d n t h =
    let (p', run, t') =
      read_number_lem m cs k (v * 10 + (ch - 48)) c (p + 1) x xs d.2 n t.2 (omega arith) in
    let digit : (leb 48 c && leb c 57) ≡ true = ground arith in (p', rw (t.0, digit) run, t')

module _ (lit : Literals) (ap : Args) (m : Memory) (slack : ℕ) where
  -- A run goes on in the escape `e` in front of the bytes `xs`, with enough rounds left for them and
  -- `slack` more.
  pub record Reached (r : Run (List ℕ)) (e : Escape) (xs : List ℕ) : Type 0 where
    pub rounds : ℕ
    pub place : ℕ
    pub run : r ≡ format_loop lit rounds (some e) place ap m
    pub behind : Text m place xs
    pub fuel : slack + length xs < rounds

  zero_step :
      (z : Bool) (k p : ℕ) (xs : List ℕ)
      → Text m p (zero_flag z xs)
      → slack + length (zero_flag z xs) < k
      → Reached
          (format_loop lit k (some (escape 32 (negsuc 0) 0)) p ap m)
          (escape (padding z) (negsuc 0) 0)
          xs
  unfolding format_loop switch
  zero_step false k p xs t h = record { rounds = k; place = p; run = refl; behind = t; fuel = h }
  zero_step true zero p xs t h = absurd (omega arith)
  zero_step true (suc k) p xs t h = record {
    rounds = k;
    place = p + 1;
    run = rw (t.0) refl;
    behind = t.2;
    fuel = omega arith;
  }

  longs_step :
      (l k p n c : ℕ) (w : ℤ) (xs : List ℕ)
      → Text m p (replicate l 108 ++ xs)
      → slack + length (replicate l 108 ++ xs) < k
      → Reached (format_loop lit k (some (escape c w n)) p ap m) (escape c w (n + l)) xs
  unfolding format_loop switch
  longs_step zero k p n c w xs t h =
      let same : n + 0 ≡ n = omega arith in
      record { rounds = k; place = p; run = rw same refl; behind = t; fuel = h }
  longs_step (suc l) zero p n c w xs t h = absurd (omega arith)
  longs_step (suc l) (suc k) p n c w xs t h =
      let sum : n + 1 + l ≡ n + suc l = omega arith in
      let r = longs_step l k (p + 1) (n + 1) c w xs t.2 (omega arith) in
      record {
        rounds = r.rounds;
        place = r.place;
        run = rw (t.0) (r.run ∙ rw sum refl);
        behind = r.behind;
        fuel = r.fuel;
      }

  width_step :
      (w : List ℕ) (k p c x : ℕ) (xs : List ℕ)
      → IsWidth w
      → (leb 48 x && leb x 57) ≡ false
      → Text m p (w ++ x ∷ xs)
      → slack + length (w ++ x ∷ xs) < k
      → Reached
          (format_loop lit k (some (escape c (negsuc 0) 0)) p ap m)
          (escape c (width_of w) 0)
          (x ∷ xs)
  unfolding format_loop switch
  width_step [] k p c x xs i n t h = record {
    rounds = k;
    place = p;
    run = refl;
    behind = t;
    fuel = h;
  }
  width_step (d ∷ w) zero p c x xs i n t h = absurd (omega arith)
  width_step (d ∷ w) (suc k) p c x xs i n t h =
      let (p', run, t') =
        read_number_lem m w k 0 d (p + 1) x xs i.2 n t.2
          (omega (arith, length-append {0} w (x ∷ xs))) in
      let minus : (d == 45) ≡ false = ground arith in
      let nought : (d == 48) ≡ false = ground arith in
      let digit : (leb 48 d && leb d 57) ≡ true = ground arith in
      record {
        rounds = k;
        place = p';
        run = rw (t.0, minus, nought, digit, run) refl;
        behind = t';
        fuel = omega (arith, length-append {0} w (x ∷ xs));
      }

  head_step :
      (f : Field) (k p x : ℕ) (xs : List ℕ)
      → IsWidth f.width
      → (leb 48 x && leb x 57) ≡ false
      → Text m p (f.width ++ (replicate f.longs 108 ++ x ∷ xs))
      → slack + length (f.width ++ (replicate f.longs 108 ++ x ∷ xs)) < k
      → Reached
          (format_loop lit k (some (escape (padding f.zeros) (negsuc 0) 0)) p ap m)
          (escape (padding f.zeros) (width_of f.width) 0)
          (replicate f.longs 108 ++ x ∷ xs)
  head_step f k p x xs i n t h = heads f.longs t h
    where
      heads :
          (l : ℕ)
          → Text m p (f.width ++ (replicate l 108 ++ x ∷ xs))
          → slack + length (f.width ++ (replicate l 108 ++ x ∷ xs)) < k
          → Reached
              (format_loop lit k (some (escape (padding f.zeros) (negsuc 0) 0)) p ap m)
              (escape (padding f.zeros) (width_of f.width) 0)
              (replicate l 108 ++ x ∷ xs)
      heads zero t h = width_step f.width k p (padding f.zeros) x xs i n t h
      heads (suc l) t h =
          width_step f.width k p (padding f.zeros) 108 (replicate l 108 ++ x ∷ xs) i refl t h

  -- The whole field of an escape, up to the conversion character `x`.
  pub field_step :
      (f : Field) (k p x : ℕ) (xs : List ℕ)
      → IsWidth f.width
      → (leb 48 x && leb x 57) ≡ false
      → Text m p (field f (x ∷ xs))
      → slack + length (field f (x ∷ xs)) < k
      → Reached
          (format_loop lit k (some start) p ap m)
          (escape (padding f.zeros) (width_of f.width) f.longs)
          (x ∷ xs)
  unfolding start field
  field_step f k p x xs i n t h =
      let z = zero_step f.zeros k p (f.width ++ (replicate f.longs 108 ++ x ∷ xs)) t h in
      let w = head_step f z.rounds z.place x xs i n z.behind z.fuel in
      let l =
        longs_step f.longs w.rounds w.place 0 (padding f.zeros) (width_of f.width) (x ∷ xs) w.behind
          w.fuel in
      let same : 0 + f.longs ≡ f.longs = omega arith in
      record {
        rounds = l.rounds;
        place = l.place;
        run = z.run ∙ (w.run ∙ (l.run ∙ rw same refl));
        behind = l.behind;
        fuel = l.fuel;
      }
