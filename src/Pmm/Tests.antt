-- ===== src/Pmm/Tests.antt =====
-- The theorems on `page_init` at a machine with 3 MiB of memory, and at one that `page_init` panics on.
use lab.Base.{ℕ, ◌+◌, ◌≡◌, false, done, panicked, arith}
use lab.Buddy
use lab.Pmm.{boot_frames, init_pmm_manager, page_init}
use lab.Pmm.Managers.{buddy_pmm_manager}
use lab.Pmm.Boot.{Layout, free_start, page_init-panics}
use lab.Pmm.Pages.{Booted, page_init-Booted}

abbrev blank : Buddy.State
blank = record {
  links = λ x. record { prev = 0; next = 0 };
  order = λ p. 0;
  base = λ p. 0;
  reserved = λ p. false;
  nr_free = 0;
  max_order_inited = 0;
}

-- The kernel's end, and the end of memory.
abbrev end : ℕ
end = 0xFFFFFFFFC0209000

abbrev mem_end : ℕ
mem_end = 0x80000000 + 0x300000

three : Layout end mem_end
three = record {
  small = omega arith;
  dram = omega arith;
  kernel = omega arith;
  mapped = omega arith;
}

page_init-Booted_example :
    (s' : Buddy.State) × (page_init buddy_pmm_manager 16 end 0x80000000 0x300000
        (init_pmm_manager buddy_pmm_manager blank)
      ≡ done (boot_frames 16 mem_end, s'))
    × Booted 16 (free_start end mem_end) mem_end s'
page_init-Booted_example =
    page_init-Booted 16 end 0x80000000 0x300000 blank (omega arith) (omega arith) (omega arith)
      three (omega arith)

-- 526 page frames; their descriptors end in the last one.
abbrev tiny_end : ℕ
tiny_end = 0x80000000 + 0x20E000

tiny : Layout 0xFFFFFFFFC0208000 tiny_end
tiny = record {
  small = omega arith;
  dram = omega arith;
  kernel = omega arith;
  mapped = omega arith;
}

page_init-panics_example :
    page_init buddy_pmm_manager 16 0xFFFFFFFFC0208000 0x80000000 0x20E000 blank ≡ panicked
page_init-panics_example =
    page_init-panics buddy_pmm_manager 16 0xFFFFFFFFC0208000 0x80000000 0x20E000 blank (omega arith)
      tiny (omega arith) (omega arith)
