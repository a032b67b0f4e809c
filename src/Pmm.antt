-- ===== src/Pmm.antt =====
-- kern/mm/pmm.c: the page manager in use, behind `struct pmm_manager`, and the memory that `page_init`
-- gives to it. S is the state of the manager, the page descriptors included. The descriptor at
-- `pages` has the number `first`; the descriptors follow one another, each of 40 bytes.
--
-- What the device tree says and the address `end` of the linker are arguments. The page table's
-- addresses, which `pmm_init` stores at its end for its message, are left out with the message.
pub mod Boot
pub mod Managers
pub mod Pages
mod Tests
use lab.Base.{
  ℕ, zero, suc, ◌+◌, ◌-◌, ◌*◌, ◌/◌, ◌^◌, ltb, ◌==◌, if◌then◌else◌, u64, sub64, Run, done, panicked,
  ◌>>=◌,
}
use lab.Base.Program.{Program}
use lab.Frames.{Frames, page_size, kernbase, round_down, round_up, pa2page, paddr}

-- `struct pmm_manager`. A function that reads the globals of kern/mm/pmm.c has them as an argument.
-- `set_page_reserved` is the macro, on the descriptors in S.
pub record Manager (S : Type 0) : Type 0 where
  pub init : S → S
  pub init_memmap : ℕ → ℕ → S → Run S
  pub alloc_pages : ℕ → Program S ℕ
  pub free_pages : Frames → ℕ → ℕ → S → Run S
  pub nr_free_pages : S → ℕ
  pub check : Frames → Program S (Unit {0})
  pub set_page_reserved : ℕ → S → S

-- `nbase`: `DRAM_BASE / PGSIZE`.
abbrev pub nbase : ℕ
nbase = 0x80000

-- `KERNTOP` and `PHYSICAL_MEMORY_OFFSET`.
abbrev pub kerntop : ℕ
kerntop = kernbase + 0x7E00000

abbrev pub physical_memory_offset : ℕ
physical_memory_offset = 0xFFFFFFFF40000000

-- `sizeof(struct Page)`
abbrev pub descriptor_size : ℕ
descriptor_size = 40

-- The globals that `page_init` sets, when memory ends at `mem_end`.
unfoldable pub boot_frames : ℕ → ℕ → Frames
boot_frames first mem_end = record {
  pages = first;
  npage = (if ltb kerntop mem_end then kerntop else mem_end) / page_size;
  nbase = nbase;
  va_pa_offset = physical_memory_offset;
}

module _ {S : Type 0} (m : Manager S) where
  unfoldable pub init_pmm_manager : S → S
  init_pmm_manager = m.init

  unfoldable pub init_memmap : ℕ → ℕ → S → Run S
  init_memmap = m.init_memmap

  unfoldable pub alloc_pages : ℕ → Program S ℕ
  alloc_pages = m.alloc_pages

  unfoldable pub free_pages : Frames → ℕ → ℕ → S → Run S
  free_pages = m.free_pages

  unfoldable pub nr_free_pages : S → ℕ
  nr_free_pages = m.nr_free_pages

  -- `for (size_t i = 0; i < npage - nbase; i++) SetPageReserved(pages + i);` with k rounds left.
  unfoldable pub reserve_pages : ℕ → ℕ → S → S
  reserve_pages zero p s = s
  reserve_pages (suc k) p s = reserve_pages k (p + 1) (m.set_page_reserved p s)

  unfoldable pub page_init : ℕ → ℕ → ℕ → ℕ → S → Run (Frames × S)
  unfolding init_memmap
  page_init first end mem_begin mem_size s = if mem_size == 0 then panicked else do
    let mem_end = u64 (mem_begin + mem_size)
    let f = boot_frames first mem_end
    let count = sub64 f.npage nbase
    let s1 = reserve_pages count first s
    freemem ← paddr f (u64 (round_up end page_size + descriptor_size * count))
    let mem_begin' = round_up freemem page_size
    let mem_end' = round_down mem_end page_size
    let rest =
        pa2page f mem_begin' >>= λ base. init_memmap base (sub64 mem_end' mem_begin' / page_size) s1
    s2 ← (if ltb freemem mem_end' then rest else done s1)
    done (f, s2)

  unfoldable pub check_alloc_page : Frames → S → Run S
  check_alloc_page f s = m.check f s >>= λ r. done r.1

  unfoldable pub pmm_init : ℕ → ℕ → ℕ → ℕ → S → Run (Frames × S)
  pmm_init first end mem_begin mem_size s = do
    (f, s1) ← page_init first end mem_begin mem_size (init_pmm_manager s)
    s2 ← check_alloc_page f s1
    done (f, s2)
