-- ===== src/Dtb/Walk.antt =====
-- What the search for the memory node finds in a device tree.
use lab.Base.{
  u64, ℕ, zero, suc, ◌+◌, ◌*◌, ◌/◌, ◌%◌, ◌^◌, ◌<◌, ◌≡◌, ◌≢◌, refl, sym, Bool, true, false,
  Bool-cases, ◌&&◌, ◌||◌, inl, inr, ne→==, ◌==◌, leb, if◌then◌else◌, Option, none, some, List, [],
  ◌∷◌, length, Run, done, arith,
}
use lab.Strings.{Memory, ℤ, pos, negsuc, strncmp}
use lab.Strings.Text.{Text, strlen-Text}
use lab.Strings.Compare.{compare, strcmp-Text, char_minus-zero}
use lab.Dtb.{
  State, dtb_init, extract_memory_info, fdt32_to_cpu, fdt64_to_cpu, load32, load64, is_zero, is_reg,
  token_loop,
}
use lab.Dtb.Bytes.{fdt32_to_cpu-load32}
use lab.Dtb.Tokens.{
  Token, begin_node, end_node, property, nop, word32, word64, Laid, begins_with, same_text,
  memory_text, reg_text, memory_range, weight,
}

if_or : (a b : Bool) → (if a then true else b) ≡ (a || b)
if_or true b = refl
if_or false b = refl

choice :
    (b : Bool) (x : Option (ℕ × ℕ)) {y : Option (ℕ × ℕ)} {r : Run (Option (ℕ × ℕ))}
    → r ≡ done y
    → (if b then done x else r) ≡ done (if b then x else y)
choice true x e = refl
choice false x e = e

is_zero-false : (z : ℤ) → z ≢ pos 0 → is_zero z ≡ false
is_zero-false (pos zero) ne = absurd (ne refl)
is_zero-false (pos (suc n)) ne = refl
is_zero-false (negsuc n) ne = refl

compare-same_text :
    (xs ys : List ℕ) (m : Memory) (s : ℕ)
    → Text m s xs
    → (t : ℕ) → Text m t ys
    → is_zero (compare xs ys) ≡ same_text xs ys
unfolding same_text compare
compare-same_text [] [] m s h t u = refl
compare-same_text [] (y ∷ ys) m s h t u = is_zero-false _ (char_minus-zero 0 y (λ e. u.1 (sym e)))
compare-same_text (x ∷ xs) [] m s h t u = is_zero-false _ (char_minus-zero x 0 h.1)
compare-same_text (x ∷ xs) (y ∷ ys) m s h t u = elim (Bool-cases (x == y)) [
  | inl same ↦ rw same (compare-same_text xs ys m (s + 1) h.2 (t + 1) u.2)
  | inr differ ↦ rw differ (is_zero-false _ (char_minus-zero x y (ground arith)))
]

-- With the length of the second string as the bound `strncmp` tells whether the first begins with it.
strncmp-begins_with :
    (xs ys : List ℕ) (m : Memory) (s t : ℕ)
    → Text m s xs
    → Text m t ys
    → is_zero (strncmp s t (length ys) m) ≡ begins_with xs ys
unfolding strncmp begins_with
strncmp-begins_with xs [] m s t h u = refl
strncmp-begins_with [] (y ∷ ys) m s t h u =
    rw (h, u.0) (is_zero-false _ (char_minus-zero 0 y (λ e. u.1 (sym e))))
strncmp-begins_with (x ∷ xs) (y ∷ ys) m s t h u = elim (Bool-cases (x == y)) [
  | inl same ↦
      rw (h.0, u.0, ne→== x 0 h.1, same) (strncmp-begins_with xs ys m (s + 1) (t + 1) h.2 u.2)
  | inr differ ↦
      rw (h.0, u.0, ne→== x 0 h.1, differ) (is_zero-false _ (char_minus-zero x y (ground arith)))
]

module _ (m : Memory) (bytes : (q : ℕ) → m q < 256) where
  load_word : (p : ℕ) → fdt32_to_cpu (load32 p m) ≡ word32 m p
  load_word p = fdt32_to_cpu-load32 p m bytes

  load32_bound : (p : ℕ) → load32 p m < 2 ^ 32
  unfolding load32
  load32_bound p = omega (arith, bytes p, bytes (p + 1), bytes (p + 2), bytes (p + 3))

  load_double : (p : ℕ) → fdt64_to_cpu (load64 p m) ≡ word64 m p
  unfolding fdt64_to_cpu load64
  load_double p =
      let low = load32_bound p in
      let high = load32_bound (p + 4) in
      let a : (load32 p m + load32 (p + 4) m * 2 ^ 32) % 2 ^ 32 ≡ load32 p m = omega arith in
      let b : (load32 p m + load32 (p + 4) m * 2 ^ 32) / 2 ^ 32 ≡ load32 (p + 4) m = omega arith in
      rw (a, b) (rw (load_word p, load_word (p + 4)) refl)

  module _ (memory_name reg_name strings : ℕ) (memory_literal : Text m memory_name memory_text)
      (reg_literal : Text m reg_name reg_text) where
    is_reg_lem :
        (k p len : ℕ) (name : List ℕ) (in_memory : Bool)
        → Text m p name
        → length name < k
        → is_reg memory_name reg_name k in_memory p len m
          ≡ done (in_memory && (same_text name reg_text && leb 16 len))
    unfolding is_reg
    is_reg_lem k p len name true t fuel =
        let (run, _) = strcmp-Text k p reg_name m name reg_text t reg_literal fuel in
        rw run (
          branch (is_zero (compare name reg_text)) (same_text name reg_text) (leb 16 len)
            (compare-same_text name reg_text m p t reg_name reg_literal))
      where
        branch : (a b c : Bool) → a ≡ b → done (if a then c else false) ≡ done (b && c)
        branch true b c e = rw (← e) refl
        branch false b c e = rw (← e) refl
    is_reg_lem k p len name false t fuel = refl

    -- The loop over the tokens finds what the tokens state.
    pub token_loop-Laid :
        (ts : List Token) (k p : ℕ) (in_memory : Bool)
        → Laid m strings p ts
        → weight ts < k
        → token_loop memory_name reg_name k strings p in_memory m ≡ done (memory_range in_memory ts)
    unfolding token_loop memory_range weight
    token_loop-Laid ts zero p in_memory laid fuel = absurd (omega arith)
    token_loop-Laid [] (suc k) p in_memory laid fuel = rw (load_word p, laid) refl
    token_loop-Laid (begin_node name ∷ ts) (suc k) p in_memory (q, at_p, laid) fuel =
        let (one, text, small, next) = at_p in
        let memory_node =
          strncmp-begins_with name memory_text m (p + 4) memory_name text memory_literal in
        let later =
          token_loop-Laid ts k q (begins_with name memory_text || in_memory) laid (omega arith) in
        rw
          (
            load_word p,
            one,
            strlen-Text (suc k) (p + 4) m name text (omega arith) (omega arith),
            memory_node,
            if_or (begins_with name memory_text) in_memory,
            ← next,
          )
          later
    token_loop-Laid (end_node ∷ ts) (suc k) p in_memory (q, at_p, laid) fuel =
        rw (load_word p, at_p.0) (rw at_p.1 at (token_loop-Laid ts k q false laid (omega arith)))
    token_loop-Laid (property name len base size ∷ ts) (suc k) p in_memory (q, at_p, laid) fuel =
        let (three, length_is, text, base_is, size_is, next) = at_p in
        let later = token_loop-Laid ts k q in_memory laid (omega arith) in
        rw
          (
            load_word p,
            three,
            load_word (p + 4),
            length_is,
            load_word (p + 4 + 4),
            is_reg_lem (suc k) (strings + word32 m (p + 4 + 4)) len name in_memory text
                (omega arith),
            load_double (p + 4 + 8),
            load_double (p + 4 + 8 + 8),
            base_is,
            size_is,
            ← next,
          )
          (choice (in_memory && (same_text name reg_text && leb 16 len)) _ later)
    token_loop-Laid (nop ∷ ts) (suc k) p in_memory (q, at_p, laid) fuel =
        rw (load_word p, at_p.0)
          (rw at_p.1 at (token_loop-Laid ts k q in_memory laid (omega arith)))

    -- On a device tree at an address other than 0 with the magic number, whose structure part holds
    -- nodes and properties that lie in memory one behind the other, dtb_init ends and saves the
    -- base and the size that the first property "reg" of 16 bytes or more states between the begin
    -- of a node "memory..." and the next end of a node, and saves nothing if there is none. Names
    -- of nodes are shorter than 2^31, and the rounds are more than the bytes of the names and the
    -- tokens.
    pub dtb_init-Laid :
        (k offset boot_dtb : ℕ) (ts : List Token) (s : State)
        → let d = u64 (boot_dtb + offset) in
          0 < boot_dtb
          → word32 m d ≡ 0xD00DFEED
          → strings ≡ d + word32 m (d + 12)
          → Laid m strings (d + word32 m (d + 8)) ts
          → weight ts < k
          → dtb_init memory_name reg_name k offset boot_dtb m s
            ≡ done (elim (memory_range false ts) [
              | none ↦ s
              | some (base, size) ↦ record { memory_base = base; memory_size = size }
            ])
    unfolding dtb_init extract_memory_info
    dtb_init-Laid k offset boot_dtb ts s some_tree magic names laid fuel =
        let d = u64 (boot_dtb + offset) in
        rw
          (
            ne→== boot_dtb 0 (λ e. absurd (omega arith)),
            load_word d,
            magic,
            load_word (d + 12),
            load_word (d + 8),
            ← names,
            token_loop-Laid ts k (d + word32 m (d + 8)) false laid fuel,
          )
          refl
