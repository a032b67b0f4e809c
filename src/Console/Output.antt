-- ===== src/Console/Output.antt =====
-- What `cputs`, `cprintf` and `__panic` give to the firmware.
use lab.Base.{
  ℕ, zero, suc, ◌+◌, ◌%◌, ◌^◌, ◌<◌, ◌≡◌, refl, ap, ◌∙◌, List, [], ◌∷◌, ◌++◌, All, length, true,
  false, ◌==◌, ne→==, if◌then◌else◌, done, arith,
}
use lab.Strings.{Memory}
use lab.Strings.Text.{Text}
use lab.Print.Format.{Args, Literals}
use lab.Print.Format.Pieces.{Piece, text, encode, IsValid, Fits, Prints}
use lab.Print.Format.Render.{vprintfmt-Prints}
use lab.Console.{
  sbi_console_putchar, cons_putc, cputch, cputch_all, cputs_loop, cputs, vcprintf, cprintf, message,
  panic,
}

module _ {S : Type 0} (sbi_call : ℕ → ℕ → ℕ → ℕ → S → ℕ × S) where
  -- The firmware's state after a "console putchar" call for each byte, in their order.
  unfoldable pub sent : List ℕ → S → S
  sent [] s = s
  sent (c ∷ cs) s = sent cs (sbi_call 1 (c % 2 ^ 8) 0 0 s).1

  cputch_all_lem :
      (cs : List ℕ) (cnt : ℕ) (s : S)
      → cputch_all sbi_call cs (cnt, s) ≡ (cnt + length cs, sent cs s)
  unfolding cputch_all cputch cons_putc sbi_console_putchar sent
  cputch_all_lem [] cnt s = ap (λ (n : ℕ). (n, s)) (omega arith)
  cputch_all_lem (c ∷ cs) cnt s =
      cputch_all_lem cs (cnt + 1) _
      ∙ ap (λ (n : ℕ). (n, sent cs (sbi_call 1 (c % 2 ^ 8) 0 0 s).1)) (omega arith)

  printed : (cs : List ℕ) (s : S) → cputch_all sbi_call cs (0, s) ≡ (length cs, sent cs s)
  printed cs s =
      let none_before : 0 + length cs ≡ length cs = omega arith in
      cputch_all_lem cs 0 s ∙ ap (λ (n : ℕ). (n, sent cs s)) none_before

  sent-++ : (cs ds : List ℕ) (s : S) → sent (cs ++ ds) s ≡ sent ds (sent cs s)
  unfolding sent
  sent-++ [] ds s = refl
  sent-++ (c ∷ cs) ds s = sent-++ cs ds _

  cputs_loop_lem :
      (k str : ℕ) (m : Memory) (cs : List ℕ) (r : ℕ × S)
      → Text m str cs
      → length cs < k
      → cputs_loop sbi_call k str m r ≡ done (cputch_all sbi_call (cs ++ 10 ∷ []) r)
  unfolding cputs_loop cputch_all
  cputs_loop_lem zero str m cs r t h = absurd (omega arith)
  cputs_loop_lem (suc k) str m [] r t h = rw t refl
  cputs_loop_lem (suc k) str m (c ∷ cs) r t h =
      rw (t.0, ne→== c 0 t.1)
        (cputs_loop_lem k (str + 1) m cs (cputch sbi_call c r) t.2 (omega arith))

  -- `cputs` gives the firmware the bytes of a string and a newline, in their order, and returns how
  -- many these are, given more rounds than the string has bytes.
  pub cputs-sent :
      (k str : ℕ) (m : Memory) (cs : List ℕ) (s : S)
      → Text m str cs
      → length cs < k
      → cputs sbi_call k str m s ≡ done (length (cs ++ 10 ∷ []), sent (cs ++ 10 ∷ []) s)
  unfolding cputs
  cputs-sent k str m cs s t h =
      cputs_loop_lem k str m cs (0, s) t h ∙ ap done (printed (cs ++ 10 ∷ []) s)

  -- `cprintf` gives the firmware just what the pieces of its format print, and returns its length.
  pub cprintf-Prints :
      (lit : Literals) (m : Memory) (ps : List Piece) (slack k fmt : ℕ) (ap : Args) (s : S)
      → All IsValid ps
      → Text m fmt (encode ps)
      → Fits m slack ps ap
      → slack + length (encode ps) < k
      → (cs : List ℕ) × (cprintf sbi_call lit k fmt ap m s ≡ done (length cs, sent cs s))
        × Prints m ps ap cs
  unfolding cprintf vcprintf
  cprintf-Prints lit m ps slack k fmt ap s v t g h =
      let (cs, run, q) = vprintfmt-Prints lit m ps slack k fmt ap v t g h in
      (cs, rw run (let e = printed cs s in rw e refl), q)

  newline_lem :
      (lit : Literals) (m : Memory) (k fmt : ℕ) (args : Args) (s : S)
      → Text m fmt (10 ∷ [])
      → 1 < k
      → cprintf sbi_call lit k fmt args m s ≡ done (1, sent (10 ∷ []) s)
  unfolding Prints encode Fits
  newline_lem lit m k fmt args s t h =
      let (es, run, (rest, e, none_left)) =
        cprintf-Prints lit m (text 10 ∷ []) 0 k fmt args s ((omega arith, omega arith), tt) t tt
          (omega arith) in
      run
      ∙ ap (λ (xs : List ℕ). done (length xs, sent xs s))
          (e ∙ ap (λ (xs : List ℕ). 10 ∷ xs) none_left)

  -- The first `__panic` gives the firmware its head with file and line, the message and a newline, and
  -- sets the flag; while the flag is set, `__panic` prints nothing. Formats are as in `vprintfmt-Prints`.
  pub panic-Prints :
      (lit : Literals) (m : Memory) (hs ps : List Piece) (slack k head newline file line fmt : ℕ)
      (args : Args) (s : S)
      → All IsValid hs
      → Text m head (encode hs)
      → Fits m slack hs (λ i. if i == 0 then file else line)
      → slack + length (encode hs) < k
      → All IsValid ps
      → Text m fmt (encode ps)
      → Fits m slack ps args
      → slack + length (encode ps) < k
      → Text m newline (10 ∷ [])
      → 1 < k
      → (cs : List ℕ) × (ds : List ℕ) × (panic sbi_call lit k head newline file line fmt args m
            (false, s)
          ≡ done (true, sent (cs ++ (ds ++ 10 ∷ [])) s))
        × Prints m hs (λ i. if i == 0 then file else line) cs
        × Prints m ps args ds
        × (panic sbi_call lit k head newline file line fmt args m (true, s) ≡ done (true, s))
  unfolding panic message cprintf
  panic-Prints lit m hs ps slack k head newline file line fmt args s v1 t1 g1 h1 v2 t2 g2 h2 nl
        two =
      let (cs, run1, q1) =
        cprintf-Prints lit m hs slack k head (λ i. if i == 0 then file else line) s v1 t1 g1 h1 in
      let (ds, run2, q2) = cprintf-Prints lit m ps slack k fmt args (sent cs s) v2 t2 g2 h2 in
      let run3 = newline_lem lit m k newline (λ i. 0) (sent ds (sent cs s)) nl two in
      let order = sent-++ cs (ds ++ 10 ∷ []) s ∙ sent-++ ds (10 ∷ []) (sent cs s) in
      (cs, ds, rw run1 (rw run2 (rw run3 (rw order refl))), q1, q2, refl)
