-- ===== src/Dtb.antt =====
-- kern/driver/dtb.c: the search of the device tree for the memory's range. Memory is a byte memory,
-- from which a little-endian processor loads words. The loop over the tokens runs on fuel, which also
-- bounds the string functions.
pub mod Bytes
pub mod Tokens
pub mod Walk
mod Tests
use lab.Base.{
  ℕ, zero, suc, ◌+◌, ◌*◌, ◌/◌, ◌%◌, ◌^◌, Bool, true, false, not, leb, ◌==◌, if◌then◌else◌, u32, u64,
  Option, none, some, Run, done, out_of_fuel, ◌>>=◌,
}
use lab.Strings.{Memory, ℤ, pos, negsuc, strlen, strcmp, strncmp}

-- The swap of the bytes, with the disjoint parts of the C code's `|` added up.
unfoldable pub fdt32_to_cpu : ℕ → ℕ
fdt32_to_cpu x =
    x % 2 ^ 8 * 2 ^ 24
    + x / 2 ^ 8 % 2 ^ 8 * 2 ^ 16
    + x / 2 ^ 16 % 2 ^ 8 * 2 ^ 8
    + x / 2 ^ 24 % 2 ^ 8

unfoldable pub fdt64_to_cpu : ℕ → ℕ
fdt64_to_cpu x = fdt32_to_cpu (x % 2 ^ 32) * 2 ^ 32 + fdt32_to_cpu (x / 2 ^ 32)

-- What a load of a `uint32_t` or a `uint64_t` gives.
unfoldable pub load32 : ℕ → Memory → ℕ
load32 p m = m p + m (p + 1) * 2 ^ 8 + m (p + 2) * 2 ^ 16 + m (p + 3) * 2 ^ 24

unfoldable pub load64 : ℕ → Memory → ℕ
load64 p m = load32 p m + load32 (p + 4) m * 2 ^ 32

abbrev pub is_zero : ℤ → Bool
is_zero (pos zero) = true
is_zero (pos (suc n)) = false
is_zero (negsuc n) = false

-- The memory range that was saved: `memory_base` and `memory_size`.
pub record State : Type 0 where
  pub memory_base : ℕ
  pub memory_size : ℕ

-- The addresses of the literals "memory" and "reg".
module _ (memory_name reg_name : ℕ) where
  -- `in_memory_node && strcmp(prop_name, "reg") == 0 && prop_len >= 16`
  unfoldable pub is_reg : ℕ → Bool → ℕ → ℕ → Memory → Run Bool
  is_reg k in_memory_node prop_name prop_len m = do
    c ← (if in_memory_node then strcmp k prop_name reg_name m else done (pos 1))
    done (if is_zero c then leb 16 prop_len else false)

  -- The loop over the tokens; `none` is the return value -1.
  unfoldable pub token_loop : ℕ → ℕ → ℕ → Bool → Memory → Run (Option (ℕ × ℕ))
  token_loop zero strings_base struct_ptr in_memory_node m = out_of_fuel
  token_loop (suc k) strings_base struct_ptr in_memory_node m =
      let token = fdt32_to_cpu (load32 struct_ptr m) in
      let next = struct_ptr + 4 in
      let go = λ (p : ℕ) (b : Bool). token_loop k strings_base p b m in
      let prop_len = fdt32_to_cpu (load32 next m) in
      let prop_name = strings_base + fdt32_to_cpu (load32 (next + 4) m) in
      let data_ptr = next + 8 in
      if token == 1
      then (strlen (suc k) next m >>= λ name_len.
          go ((next + name_len + 4) / 4 * 4)
            (if is_zero (strncmp next memory_name 6 m) then true else in_memory_node))
      else if token == 2
      then go next false
      else if token == 3
      then (is_reg (suc k) in_memory_node prop_name prop_len m >>= λ found.
          if found
          then done
              (some (fdt64_to_cpu (load64 data_ptr m), fdt64_to_cpu (load64 (data_ptr + 8) m)))
          else go ((data_ptr + prop_len + 3) / 4 * 4) in_memory_node)
      else if token == 4
      then go next in_memory_node
      else done none

  -- `off_dt_struct` and `off_dt_strings` are the third and the fourth word of the header.
  unfoldable pub extract_memory_info : ℕ → ℕ → Memory → Run (Option (ℕ × ℕ))
  extract_memory_info k dtb_vaddr m =
      token_loop k (dtb_vaddr + fdt32_to_cpu (load32 (dtb_vaddr + 12) m))
        (dtb_vaddr + fdt32_to_cpu (load32 (dtb_vaddr + 8) m)) false m

  -- `offset` is `PHYSICAL_MEMORY_OFFSET`. The messages are left out.
  unfoldable pub dtb_init : ℕ → ℕ → ℕ → Memory → State → Run State
  dtb_init k offset boot_dtb m s =
      let dtb_vaddr = u64 (boot_dtb + offset) in
      if boot_dtb == 0
      then done s
      else if not (fdt32_to_cpu (load32 dtb_vaddr m) == 3490578157)
      then done s
      else do
        info ← extract_memory_info k dtb_vaddr m
        done (elim info [
          | none ↦ s
          | some (base, size) ↦ record { memory_base = base; memory_size = size }
        ])

unfoldable pub get_memory_base : State → ℕ
get_memory_base s = s.memory_base

unfoldable pub get_memory_size : State → ℕ
get_memory_size s = s.memory_size
