-- ===== src/Pmm/Boot.antt =====
-- How `page_init` in kern/mm/pmm.c computes the memory it gives to the page manager.
use lab.Base.{
  ℕ, ◌+◌, ◌-◌, ◌*◌, ◌/◌, ◌^◌, ◌≤◌, ◌<◌, ◌≡◌, refl, lt→ltb, le→ltb, lt→leb, le→leb, ne→==, u64,
  sub64, done, panicked, ◌>>=◌, arith,
}
use lab.Frames.{Frames, page_size, kernbase, ppn, round_down, round_up, pa2page, paddr}
use lab.Pmm.{
  Manager, nbase, kerntop, descriptor_size, physical_memory_offset, boot_frames, page_init,
  reserve_pages,
}

-- The page frames up to `mem_end`, and the physical address behind their descriptors, which stand
-- behind the kernel's `end`.
abbrev pub frame_count : ℕ → ℕ
frame_count mem_end = mem_end / 4096 - 0x80000

abbrev pub free_start : ℕ → ℕ → ℕ
free_start end mem_end =
    (end + 4095) / 4096 * 4096 + 40 * frame_count mem_end - physical_memory_offset

-- The numbers of the first page frame that is not in use, and of the one behind the last.
abbrev pub first_frame : ℕ → ℕ → ℕ
first_frame end mem_end = (free_start end mem_end + 4095) / 4096

-- A machine whose memory ends below 2^44 and above the base of the DRAM, and whose kernel and page
-- descriptors stand in the addresses from KERNBASE on.
pub record Layout (end mem_end : ℕ) : Type 0 where
  pub small : mem_end < 2 ^ 44
  pub dram : 0x80000 ≤ mem_end / 4096
  pub kernel : kernbase ≤ end
  pub mapped : end + 4096 + 40 * frame_count mem_end < 2 ^ 64

round_up_lem : (a : ℕ) → a + 4095 < 2 ^ 64 → round_up a page_size ≡ (a + 4095) / 4096 * 4096
unfolding round_up round_down
round_up_lem a h = omega arith

-- The descriptors end at `free_start`.
paddr_lem :
    (first end mem_end : ℕ)
    → Layout end mem_end
    → paddr
        (boot_frames first mem_end)
        (u64 (round_up end page_size + descriptor_size * frame_count mem_end))
      ≡ done (free_start end mem_end)
unfolding paddr boot_frames
paddr_lem first end mem_end l =
    let e : u64 (round_up end page_size + descriptor_size * frame_count mem_end)
        ≡ (end + 4095) / 4096 * 4096 + 40 * frame_count mem_end =
      omega (arith, round_up_lem end (omega (arith, l.mapped)), l.mapped) in
    let above =
      le→ltb ((end + 4095) / 4096 * 4096 + 40 * frame_count mem_end) kernbase
        (omega (arith, l.kernel)) in
    let shift : sub64 ((end + 4095) / 4096 * 4096 + 40 * frame_count mem_end) physical_memory_offset
        ≡ free_start end mem_end =
      omega (arith, l.kernel, l.mapped) in
    rw (e, above, shift) refl

pub boot_npage :
    (first end mem_end : ℕ)
    → Layout end mem_end
    → (boot_frames first mem_end).npage ≡ mem_end / 4096
unfolding boot_frames
boot_npage first end mem_end l = rw (le→ltb kerntop mem_end (omega (arith, l.small))) refl

pa2page_lem :
    (f : Frames) (pa : ℕ)
    → pa / 4096 < f.npage
    → pa2page f pa ≡ done (f.pages + pa / 4096 - f.nbase)
unfolding pa2page ppn
pa2page_lem f pa h = rw (lt→leb f.npage (pa / 4096) h) refl

-- `page_init` marks every descriptor, and gives the frames from the first unused one on to the manager.
pub page_init-run :
    {S : Type 0} (m : Manager S) (first end mem_begin mem_size : ℕ) (s : S)
    → 0 < mem_size
    → Layout end (mem_begin + mem_size)
    → let mem_end = mem_begin + mem_size in
      let base = first_frame end mem_end in
      base < mem_end / 4096
      → page_init m first end mem_begin mem_size s ≡ (
          m.init_memmap
            (first + base - nbase)
            (mem_end / 4096 - base)
            (reserve_pages m (frame_count mem_end) first s)
          >>= λ s2. done (boot_frames first mem_end, s2))
unfolding page_init
page_init-run m first end mem_begin mem_size s some l room =
    let mem_end = mem_begin + mem_size in
    let e : u64 mem_end ≡ mem_end = omega (arith, l.small) in
    let f = boot_frames first mem_end in
    let count : sub64 f.npage nbase ≡ frame_count mem_end =
      omega (arith, l.small, l.dram, boot_npage first end mem_end l) in
    let last : round_down mem_end page_size ≡ mem_end / 4096 * 4096 =
      unfold round_down in omega arith in
    let start = free_start end mem_end in
    let up = round_up_lem start (omega (arith, l.small, room)) in
    let pages : sub64 (mem_end / 4096 * 4096) (first_frame end mem_end * 4096) / page_size
        ≡ mem_end / 4096 - first_frame end mem_end =
      omega (arith, l.small, room) in
    let frame : first_frame end mem_end * 4096 / 4096 ≡ first_frame end mem_end = omega arith in
    let found =
      pa2page_lem f (first_frame end mem_end * 4096)
        (omega (arith, frame, boot_npage first end mem_end l, room)) in
    rw (ne→== mem_size 0 (λ z. absurd (omega arith)), e, count, paddr_lem first end mem_end l)
      (rw (last, up)
        (rw (pages, lt→ltb start (mem_end / 4096 * 4096) (omega (arith, room)), found)
          (rw frame (unfold boot_frames in refl))))

-- When the page descriptors end inside the last whole page of memory, `page_init` panics: the guard
-- compares their end, before it is rounded up, and `pa2page` then refuses the address behind memory.
pub page_init-panics :
    {S : Type 0} (m : Manager S) (first end mem_begin mem_size : ℕ) (s : S)
    → 0 < mem_size
    → Layout end (mem_begin + mem_size)
    → let mem_end = mem_begin + mem_size in
      free_start end mem_end < mem_end / 4096 * 4096
      → first_frame end mem_end ≡ mem_end / 4096
      → page_init m first end mem_begin mem_size s ≡ panicked
unfolding page_init
page_init-panics m first end mem_begin mem_size s some l inside full =
    let mem_end = mem_begin + mem_size in
    let e : u64 mem_end ≡ mem_end = omega (arith, l.small) in
    let f = boot_frames first mem_end in
    let count : sub64 f.npage nbase ≡ frame_count mem_end =
      omega (arith, l.small, l.dram, boot_npage first end mem_end l) in
    let last : round_down mem_end page_size ≡ mem_end / 4096 * 4096 =
      unfold round_down in omega arith in
    let start = free_start end mem_end in
    let up = round_up_lem start (omega (arith, l.small, inside)) in
    let refused : pa2page f (first_frame end mem_end * 4096) ≡ panicked =
      unfold pa2page ppn in
      rw
        (le→leb f.npage (first_frame end mem_end * 4096 / 4096)
          (omega (arith, full, boot_npage first end mem_end l)))
        refl in
    rw (ne→== mem_size 0 (λ z. absurd (omega arith)), e, count, paddr_lem first end mem_end l)
      (rw (last, up) (rw (lt→ltb start (mem_end / 4096 * 4096) inside, refused) refl))
