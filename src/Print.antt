-- ===== src/Print.antt =====
-- libs/printfmt.c: printing a number, and the bounded buffer of `vsnprintf`. What `putch` is given is a
-- list of characters. `vsnprintf` takes the characters that `vprintfmt`, modelled in Print/Format, makes.
pub mod Buffer
pub mod Format
pub mod Number
mod Tests
use lab.Base.{
  ℕ, zero, suc, ◌+◌, ◌-◌, ◌/◌, ◌%◌, ◌^◌, ltb, leb, ◌==◌, if◌then◌else◌, u64, sub64, Run, done,
  out_of_fuel, ◌>>=◌, List, [], ◌∷◌, ◌++◌, Option, none, some,
}
use lab.Strings.{Memory, store}

abbrev pub replicate : ℕ → ℕ → List ℕ
replicate zero c = []
replicate (suc n) c = c ∷ replicate n c

-- `"0123456789abcdef"[mod]`
unfoldable pub digit_char : ℕ → ℕ
digit_char d = if ltb d 10 then 48 + d else 87 + d

-- `width` counts only above 1, so a width below 0 is 0 here.
unfoldable pub printnum : ℕ → ℕ → ℕ → ℕ → ℕ → Run (List ℕ)
printnum zero num base width padc = out_of_fuel
printnum (suc k) num base width padc =
    let rest = printnum k (num / base) base (width - 1) padc in
    (if leb base num then rest else done (replicate (width - 1) padc)) >>= λ front.
    done (front ++ digit_char (num % base) ∷ [])

-- `struct sprintbuf`, with the memory that it points into.
pub record SprintBuf : Type 0 where
  pub buf : ℕ
  pub ebuf : ℕ
  pub cnt : ℕ
  pub memory : Memory

-- The store keeps the low byte of the character.
unfoldable pub sprintputch : ℕ → SprintBuf → SprintBuf
sprintputch ch b =
    if ltb b.buf b.ebuf
    then record {
      buf = b.buf + 1;
      ebuf = b.ebuf;
      cnt = b.cnt + 1;
      memory = store b.buf (ch % 2 ^ 8) b.memory;
    }
    else record b { cnt = b.cnt + 1 }

unfoldable pub put_all : List ℕ → SprintBuf → SprintBuf
put_all [] b = b
put_all (c ∷ cs) b = put_all cs (sprintputch c b)

-- The return value, or `none` for `-E_INVAL`, and the memory. The buffer's end is a 64-bit
-- address: with `size` 0 it stands before the buffer.
unfoldable pub vsnprintf : ℕ → ℕ → List ℕ → Memory → Option (ℕ × Memory)
vsnprintf str size chars m =
    let ebuf = sub64 (str + size) 1 in
    if str == 0
    then none
    else if ltb ebuf str
    then none
    else let b = put_all chars (record { buf = str; ebuf = ebuf; cnt = 0; memory = m }) in
      some (b.cnt, store b.buf 0 b.memory)
