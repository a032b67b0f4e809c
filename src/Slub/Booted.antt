-- ===== src/Slub/Booted.antt =====
-- The slab allocator over the page manager that `page_init` of kern/mm/pmm.c sets up.
use mathlib.Core.Path.{subst}
use lab.Base.{ℕ, ◌+◌, ◌/◌, ◌^◌, ◌≤◌, ◌<◌, ◌≡◌, sym, ◌∙◌, List, [], Run, done, arith}
use native.Mathlib.Decide.{dec_lt}
use lab.Buddy
use lab.Pmm
use lab.Pmm.{nbase, boot_frames, physical_memory_offset, page_init, init_pmm_manager}
use lab.Pmm.Boot.{Layout, frame_count, first_frame, free_start}
use lab.Pmm.Managers.{buddy_pmm_manager}
use lab.Pmm.Pages.{Booted, page_init-Booted}
use lab.Slub.{State, kmalloc}
use lab.Slub.Backing.{Stocked, buddy_supplier}
use lab.Slub.Supply.{Mapped}
use lab.Slub.Use.{Area, Separate, Reach}
use lab.Slub.Sound.{Reach-Separate, Reach-kmalloc}

pub boot_mapped :
    (first mem_end : ℕ)
    → 0x80000 ≤ mem_end / 4096
    → mem_end ≤ 0xC0000000
    → Mapped nbase physical_memory_offset (buddy_supplier first (frame_count mem_end)).page_count
unfolding buddy_supplier
boot_mapped first mem_end low high = record {
  above_zero = omega arith;
  whole = omega arith;
  fits = omega arith;
}

-- A booted manager has given no page yet.
Booted-Stocked :
    (first end mem_end : ℕ) (b : Buddy.State)
    → Layout end mem_end
    → Booted first (free_start end mem_end) mem_end b
    → Stocked first (frame_count mem_end) b []
Booted-Stocked first end mem_end b l x = record {
  fl = x.lists;
  holds = x.holds;
  small = omega (arith, x.count, l.kernel, l.mapped);
  above = λ q h. elim (dec_lt q first) [
    | yes less ↦ absurd (omega (arith, x.before q less))
    | no more ↦ omega arith
  ];
  below = λ q h. elim (dec_lt q (first + frame_count mem_end)) [
    | yes less ↦ less
    | no more ↦ absurd (omega (arith, x.behind q (omega arith)))
  ];
  gone = tt;
}

module _ (first end mem_begin mem_size : ℕ) (b : Buddy.State) (s0 : State Buddy.State)
    (above : 10 < first) (word : first + frame_count (mem_begin + mem_size) < 2 ^ 64)
    (some : 0 < mem_size) (layout : Layout end (mem_begin + mem_size))
    (room : first_frame end (mem_begin + mem_size) < (mem_begin + mem_size) / 4096)
    (mapped : mem_begin + mem_size ≤ 0xC0000000)
    (booted : page_init buddy_pmm_manager first end mem_begin mem_size
        (init_pmm_manager buddy_pmm_manager b)
      ≡ done (boot_frames first (mem_begin + mem_size), s0.pmm)) where
  pub stocked : (buddy_supplier first (frame_count (mem_begin + mem_size))).Keeps s0.pmm []
  unfolding buddy_supplier
  stocked =
      let (b', run, x) =
        page_init-Booted first end mem_begin mem_size b above word some layout room in
      let same : b' ≡ s0.pmm = second (sym run ∙ booted) in
      subst (λ p. Stocked first (frame_count (mem_begin + mem_size)) p []) same
        (Booted-Stocked first end (mem_begin + mem_size) b' layout x)
    where
      second :
          {A B : Type 0} {a a' : A} {x x' : B}
          → ◌≡◌ {A = Run (A × B)} (done (a, x)) (done (a', x'))
          → x ≡ x'
      second e = cc

  -- Over the buddy manager that page_init has set up, whatever sequence of kmalloc up to 2048
  -- bytes, of kfree of areas in use and of writes to them follows slub_init, no two areas in use
  -- overlap. The conditions on memory are those of page_init-Booted, and that it ends at or below
  -- 0xC0000000, so that virtual addresses do not wrap around.
  pub booted-Separate :
      (s : State Buddy.State) (areas : List Area)
      → Reach (Pmm.alloc_pages buddy_pmm_manager) first nbase physical_memory_offset s0 s areas
      → Separate areas
  booted-Separate s areas reach =
      Reach-Separate (Pmm.alloc_pages buddy_pmm_manager) first nbase physical_memory_offset
        (buddy_supplier first (frame_count (mem_begin + mem_size)))
        (boot_mapped first (mem_begin + mem_size) (omega (arith, layout.kernel, room)) mapped) []
        stocked reach

  -- After any sequence of calls and writes as in booted-Separate, and on its conditions, kmalloc
  -- of 1 to 2048 bytes ends without a trap, given enough rounds for the walk over the slabs.
  pub booted-kmalloc :
      (s : State Buddy.State) (areas : List Area) (size : ℕ)
      → Reach (Pmm.alloc_pages buddy_pmm_manager) first nbase physical_memory_offset s0 s areas
      → 0 < size
      → size ≤ 2048
      → (k : ℕ) × (r : ℕ × State Buddy.State) × (kmalloc
            (Pmm.alloc_pages buddy_pmm_manager)
            first
            nbase
            physical_memory_offset
            k
            size
            s
          ≡ done r)
  booted-kmalloc s areas size reach pos small =
      Reach-kmalloc (Pmm.alloc_pages buddy_pmm_manager) first nbase physical_memory_offset
        (buddy_supplier first (frame_count (mem_begin + mem_size)))
        (boot_mapped first (mem_begin + mem_size) (omega (arith, layout.kernel, room)) mapped) []
        size stocked reach pos small
