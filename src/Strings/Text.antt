-- ===== src/Strings/Text.antt =====
-- Strings that end with a null byte: their length, and copying them.
use lab.Base.{
  ℕ, zero, suc, ◌+◌, ◌^◌, ◌≤◌, ◌<◌, ◌≡◌, ◌≢◌, refl, ◌∙◌, ◌⊎◌, inl, inr, false, List, [], ◌∷◌,
  length, ltb, ◌==◌, if◌then◌else◌, u64, done, arith, ne→==,
}
use lab.Strings.{
  Memory, store, strlen_loop, strlen, strnlen_loop, strnlen, strcpy_loop, strcpy, copy_up,
}
use lab.Strings.Copy.{Copied, store-other, copy_up-outside, copy_up-inside}

-- The bytes `xs`, none of them null, stand at `s`, and a null byte behind them.
abbrev pub Text : Memory → ℕ → List ℕ → Type 0
Text m s [] = m s ≡ 0
Text m s (x ∷ xs) = (m s ≡ x) × (x ≢ 0) × Text m (s + 1) xs

strlen_loop_lem :
    (k cnt s : ℕ) (m : Memory) (xs : List ℕ)
    → Text m s xs
    → length xs < k
    → cnt + length xs < 2 ^ 64
    → strlen_loop k cnt s m ≡ done (cnt + length xs)
unfolding strlen_loop
strlen_loop_lem zero cnt s m xs t fuel word = absurd (omega arith)
strlen_loop_lem (suc k) cnt s m [] t fuel word = rw t (rw (plain cnt) refl)
  where
    plain : (n : ℕ) → n + 0 ≡ n
    plain n = omega arith
strlen_loop_lem (suc k) cnt s m (x ∷ xs) t fuel word =
    let next : u64 (cnt + 1) ≡ cnt + 1 = omega arith in
    let sum : cnt + 1 + length xs ≡ cnt + suc (length xs) = omega arith in
    rw (t.0, ne→== x 0 t.1, next)
      (strlen_loop_lem k (cnt + 1) (s + 1) m xs t.2 (omega arith) (omega arith) ∙ rw sum refl)

-- `strlen` counts the bytes before the null byte, given more rounds than there are.
pub strlen-Text :
    (k s : ℕ) (m : Memory) (xs : List ℕ)
    → Text m s xs
    → length xs < k
    → length xs < 2 ^ 64
    → strlen k s m ≡ done (length xs)
unfolding strlen
strlen-Text k s m xs t fuel word =
    strlen_loop_lem k 0 s m xs t fuel (omega arith) ∙ rw (none_before (length xs)) refl
  where
    none_before : (n : ℕ) → 0 + n ≡ n
    none_before n = omega arith

strnlen_loop_lem :
    (n cnt s : ℕ) (m : Memory) (xs : List ℕ)
    → Text m s xs
    → strnlen_loop n cnt s m ≡ (if ltb (length xs) n then cnt + length xs else cnt + n)
unfolding strnlen_loop
strnlen_loop_lem zero cnt s m xs t = ground arith
strnlen_loop_lem (suc n) cnt s m [] t = ground (arith, t)
strnlen_loop_lem (suc n) cnt s m (x ∷ xs) t =
    ground (arith, t.0, t.1, strnlen_loop_lem n (cnt + 1) (s + 1) m xs t.2)

-- `strnlen` is the length of the string, or the bound if the string is not shorter.
pub strnlen-Text :
    (s len : ℕ) (m : Memory) (xs : List ℕ)
    → Text m s xs
    → strnlen s len m ≡ (if ltb (length xs) len then length xs else len)
unfolding strnlen
strnlen-Text s len m xs t = ground (arith, strnlen_loop_lem len 0 s m xs t)

Text-store :
    (p v s : ℕ) (m : Memory) (xs : List ℕ)
    → (p < s) ⊎ (s + length xs < p)
    → Text m s xs
    → Text (store p v m) s xs
Text-store p v s m [] away t =
    store-other p v s m
      (λ e. elim away [ inl a ↦ absurd (omega arith) | inr b ↦ absurd (omega arith) ])
    ∙ t
Text-store p v s m (x ∷ xs) away t = (
  store-other p v s m
        (λ e. elim away [ inl a ↦ absurd (omega arith) | inr b ↦ absurd (omega arith) ])
      ∙ t.0,
  t.1,
  Text-store p v (s + 1) m xs (elim away [ inl a ↦ inl (omega arith) | inr b ↦ inr (omega arith) ])
      t.2,
)

strcpy_loop_lem :
    (k p src : ℕ) (m : Memory) (xs : List ℕ)
    → Text m src xs
    → (p ≤ src) ⊎ (src + length xs < p)
    → length xs < k
    → strcpy_loop k p src m ≡ done (copy_up p src (suc (length xs)) m)
unfolding strcpy_loop copy_up
strcpy_loop_lem zero p src m xs t away fuel = absurd (omega arith)
strcpy_loop_lem (suc k) p src m [] t away fuel = rw t refl
strcpy_loop_lem (suc k) p src m (x ∷ xs) t away fuel =
    let rest =
      Text-store p (m src) (src + 1) m xs
        (elim away [ inl a ↦ inl (omega arith) | inr b ↦ inr (omega arith) ]) t.2 in
    let nonzero : (m src == 0) ≡ false = rw (t.0) (ne→== x 0 t.1) in
    rw nonzero (
      strcpy_loop_lem k (p + 1) (src + 1) (store p (m src) m) xs rest
        (elim away [ inl a ↦ inl (omega arith) | inr b ↦ inr (omega arith) ]) (omega arith))

-- `strcpy` ends, given more rounds than the string has bytes, and copies the string with its null
-- byte and nothing else, if the target begins first or behind the string.
pub strcpy-Copied :
    (k dst src : ℕ) (m : Memory) (xs : List ℕ)
    → Text m src xs
    → (dst ≤ src) ⊎ (src + length xs < dst)
    → length xs < k
    → (m' : Memory) × (strcpy k dst src m ≡ done m') × Copied dst src (suc (length xs)) m m'
unfolding strcpy
strcpy-Copied k dst src m xs t away fuel =
    let apart : (dst ≤ src) ⊎ (src + suc (length xs) ≤ dst) = elim away [
      | inl a ↦ inl a
      | inr b ↦ inr (omega arith)
    ] in
    (
      copy_up dst src (suc (length xs)) m,
      strcpy_loop_lem k dst src m xs t away fuel,
      record {
        inside = λ i h. copy_up-inside (suc (length xs)) dst src i m apart h;
        outside = λ q h. copy_up-outside (suc (length xs)) dst src q m h;
      },
    )
