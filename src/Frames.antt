-- ===== src/Frames.antt =====
-- kern/mm/pmm.h, kern/mm/mmu.h and libs/defs.h: page frames, and the conversions between a page
-- descriptor, its frame's number and physical addresses. A page descriptor is a number, as in the
-- page managers, and `pages` the number of the first one.
pub mod Convert
mod Tests
use lab.Base.{
  ℕ, ◌+◌, ◌-◌, ◌*◌, ◌/◌, ◌%◌, ◌^◌, ltb, leb, if◌then◌else◌, u64, sub64, Run, done, panicked,
}

-- `PGSIZE`.
abbrev pub page_size : ℕ
page_size = 4096

-- The globals of kern/mm/pmm.c.
pub record Frames : Type 0 where
  pub pages : ℕ
  pub npage : ℕ
  pub nbase : ℕ
  pub va_pa_offset : ℕ

-- `PPN`.
unfoldable pub ppn : ℕ → ℕ
ppn la = la / 2 ^ 12

-- `ROUNDDOWN` and `ROUNDUP`.
unfoldable pub round_down : ℕ → ℕ → ℕ
round_down a n = a - a % n

unfoldable pub round_up : ℕ → ℕ → ℕ
unfolding round_down
round_up a n = round_down (u64 (a + n - 1)) n

unfoldable pub page2ppn : Frames → ℕ → ℕ
page2ppn f page = u64 (sub64 page f.pages + f.nbase)

unfoldable pub page2pa : Frames → ℕ → ℕ
unfolding page2ppn
page2pa f page = u64 (page2ppn f page * 2 ^ 12)

unfoldable pub pa2page : Frames → ℕ → Run ℕ
unfolding ppn
pa2page f pa = if leb f.npage (ppn pa) then panicked else done (f.pages + ppn pa - f.nbase)

-- `KERNBASE`.
abbrev pub kernbase : ℕ
kernbase = 0xFFFFFFFFC0200000

-- `PADDR`.
unfoldable pub paddr : Frames → ℕ → Run ℕ
paddr f kva = if ltb kva kernbase then panicked else done (sub64 kva f.va_pa_offset)
