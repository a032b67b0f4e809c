-- ===== src/Strings.antt =====
-- libs/string.c: the string and memory functions on a byte memory. An address is a number, and a
-- `char` a byte, which RISC-V compilers take without a sign. The loops without a bound of their own
-- take as many rounds as the first argument says; the others run on the count that the C code has.
pub mod Compare
pub mod Copy
pub mod Numbers
mod Tests
pub mod Text
use lab.Base.{
  ℕ, zero, suc, ◌+◌, ◌-◌, ◌*◌, Bool, not, ◌&&◌, ◌||◌, ltb, leb, ◌==◌, if◌then◌else◌, u64, sub64,
  Run, done, out_of_fuel, ◌>>=◌, Option, none, some,
}

abbrev pub Memory : Type 0
Memory = ℕ → ℕ

-- `*p = v`
unfoldable pub store : ℕ → ℕ → Memory → Memory
store p v m = λ q. if q == p then v else m q

-- An `int`.
pub data ℤ : Type 0 where
  pos : ℕ → ℤ
  negsuc : ℕ → ℤ

-- `(int)((unsigned char)a - (unsigned char)b)`
unfoldable pub char_minus : ℕ → ℕ → ℤ
char_minus a b = if leb b a then pos (a - b) else negsuc (b - a - 1)

unfoldable pub strlen_loop : ℕ → ℕ → ℕ → Memory → Run ℕ
strlen_loop zero cnt s m = out_of_fuel
strlen_loop (suc k) cnt s m =
    let rest = strlen_loop k (u64 (cnt + 1)) (s + 1) m in if m s == 0 then done cnt else rest

unfoldable pub strlen : ℕ → ℕ → Memory → Run ℕ
strlen k s m = strlen_loop k 0 s m

-- `while (cnt < len && *s ++ != '\0') cnt ++;` with `len - cnt` rounds left.
unfoldable pub strnlen_loop : ℕ → ℕ → ℕ → Memory → ℕ
strnlen_loop zero cnt s m = cnt
strnlen_loop (suc k) cnt s m =
    let rest = strnlen_loop k (cnt + 1) (s + 1) m in if m s == 0 then cnt else rest

unfoldable pub strnlen : ℕ → ℕ → Memory → ℕ
strnlen s len m = strnlen_loop len 0 s m

unfoldable pub strcpy_loop : ℕ → ℕ → ℕ → Memory → Run Memory
strcpy_loop zero p src m = out_of_fuel
strcpy_loop (suc k) p src m =
    let m' = store p (m src) m in
    let rest = strcpy_loop k (p + 1) (src + 1) m' in if m src == 0 then done m' else rest

unfoldable pub strcpy : ℕ → ℕ → ℕ → Memory → Run Memory
strcpy k dst src m = strcpy_loop k dst src m

unfoldable pub strncpy : ℕ → ℕ → ℕ → Memory → Memory
strncpy p src zero m = m
strncpy p src (suc len) m =
    strncpy (p + 1) (if m src == 0 then src else src + 1) len (store p (m src) m)

unfoldable pub strcmp : ℕ → ℕ → ℕ → Memory → Run ℤ
strcmp zero s1 s2 m = out_of_fuel
strcmp (suc k) s1 s2 m =
    let rest = strcmp k (s1 + 1) (s2 + 1) m in
    if not (m s1 == 0) && (m s1 == m s2) then rest else done (char_minus (m s1) (m s2))

unfoldable pub strncmp : ℕ → ℕ → ℕ → Memory → ℤ
strncmp s1 s2 zero m = pos 0
strncmp s1 s2 (suc n) m =
    let rest = strncmp (s1 + 1) (s2 + 1) n m in
    if not (m s1 == 0) && (m s1 == m s2) then rest else char_minus (m s1) (m s2)

-- `NULL` is 0.
unfoldable pub strchr : ℕ → ℕ → ℕ → Memory → Run ℕ
strchr zero s c m = out_of_fuel
strchr (suc k) s c m =
    let rest = strchr k (s + 1) c m in
    if m s == 0 then done 0 else if m s == c then done s else rest

unfoldable pub strfind : ℕ → ℕ → ℕ → Memory → Run ℕ
strfind zero s c m = out_of_fuel
strfind (suc k) s c m =
    let rest = strfind k (s + 1) c m in
    if m s == 0 then done s else if m s == c then done s else rest

-- The loop over blanks and tabs.
unfoldable pub skip_blanks : ℕ → ℕ → Memory → Run ℕ
skip_blanks zero s m = out_of_fuel
skip_blanks (suc k) s m =
    let rest = skip_blanks k (s + 1) m in if (m s == 32) || (m s == 9) then rest else done s

unfoldable pub digit : ℕ → Option ℕ
digit c =
    if leb 48 c && leb c 57
    then some (c - 48)
    else if leb 97 c && leb c 122
    then some (c - 97 + 10)
    else if leb 65 c && leb c 90
    then some (c - 65 + 10)
    else none

-- The loop over the digits: the next character and the value, a `long` as its 64 bits.
unfoldable pub strtol_loop : ℕ → ℕ → ℕ → ℕ → Memory → Run (ℕ × ℕ)
strtol_loop zero s base val m = out_of_fuel
strtol_loop (suc k) s base val m = elim (digit (m s)) [
  | none ↦ done (s, val)
  | some dig ↦
      let rest = strtol_loop k (s + 1) base (u64 (val * base + dig)) m in
      if leb base dig then done (s, val) else rest
]

-- The end of the number, which the C code stores through `endptr`, and the number.
unfoldable pub strtol : ℕ → ℕ → ℕ → Memory → Run (ℕ × ℕ)
strtol k s base m = do
  s0 ← skip_blanks k s m
  let neg = m s0 == 45
  let s1 = if (m s0 == 43) || neg then s0 + 1 else s0
  let hex = ((base == 0) || (base == 16)) && (m s1 == 48) && (m (s1 + 1) == 120)
  let octal = (base == 0) && (m s1 == 48)
  let s2 = if hex then s1 + 2 else if octal then s1 + 1 else s1
  let base' = if hex then 16 else if octal then 8 else if base == 0 then 10 else base
  (end, val) ← strtol_loop k s2 base' 0 m
  done (end, if neg then sub64 0 val else val)

unfoldable pub memset : ℕ → ℕ → ℕ → Memory → Memory
memset p c zero m = m
memset p c (suc n) m = memset (p + 1) c n (store p c m)

-- `while (n -- > 0) *d ++ = *s ++;`
unfoldable pub copy_up : ℕ → ℕ → ℕ → Memory → Memory
copy_up d s zero m = m
copy_up d s (suc n) m = copy_up (d + 1) (s + 1) n (store d (m s) m)

-- `while (n -- > 0) *-- d = *-- s;`
unfoldable pub copy_down : ℕ → ℕ → ℕ → Memory → Memory
copy_down d s zero m = m
copy_down d s (suc n) m = copy_down (d - 1) (s - 1) n (store (d - 1) (m (s - 1)) m)

unfoldable pub memmove : ℕ → ℕ → ℕ → Memory → Memory
memmove dst src n m =
    if ltb src dst && ltb dst (src + n)
    then copy_down (dst + n) (src + n) n m
    else copy_up dst src n m

unfoldable pub memcpy : ℕ → ℕ → ℕ → Memory → Memory
memcpy dst src n m = copy_up dst src n m

unfoldable pub memcmp : ℕ → ℕ → ℕ → Memory → ℤ
memcmp v1 v2 zero m = pos 0
memcmp v1 v2 (suc n) m =
    let rest = memcmp (v1 + 1) (v2 + 1) n m in
    if m v1 == m v2 then rest else char_minus (m v1) (m v2)
