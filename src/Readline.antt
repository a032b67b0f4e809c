-- ===== src/Readline.antt =====
-- libs/readline.c: reading a line with `getchar`. The input is the list of what `getchar` returns, and
-- `buf` a memory that begins at 0. The prompt and the echo are left out.
pub mod Edit
mod Tests
use lab.Base.{
  ℕ, ◌+◌, ◌-◌, ◌%◌, ◌&&◌, ◌||◌, ltb, leb, ◌==◌, if◌then◌else◌, List, [], ◌∷◌, Option, none, some,
  Run, done, out_of_fuel,
}
use lab.Strings.{Memory, ℤ, pos, negsuc, store}

-- `BUFSIZE`.
abbrev pub buffer_size : ℕ
buffer_size = 1024

-- The loop over the characters, which ends with no result when the input does. A character is stored
-- as a byte. `none` is the return value `NULL`.
unfoldable pub readline : List ℤ → ℕ → Memory → Run (Option Memory)
readline [] i buf = out_of_fuel
readline (negsuc c ∷ cs) i buf = done none
readline (pos c ∷ cs) i buf =
    let stored = readline cs (i + 1) (store i (c % 256) buf) in
    let erased = readline cs (i - 1) buf in
    let ignored = readline cs i buf in
    if leb 32 c && ltb i (buffer_size - 1)
    then stored
    else if (c == 8) && ltb 0 i
    then erased
    else if (c == 10) || (c == 13)
    then done (some (store i 0 buf))
    else ignored
