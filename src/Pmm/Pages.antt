-- ===== src/Pmm/Pages.antt =====
-- What the buddy manager, the one that `init_pmm_manager` selects, has after `page_init`.
use native.Mathlib.Decide.{dec_lt}
use lab.Base.{
  ℕ, zero, suc, ◌+◌, ◌-◌, ◌*◌, ◌/◌, ◌^◌, ◌≤◌, ◌<◌, ◌≡◌, refl, ◌∙◌, Bool, true, ◌&&◌, leb, ne→==,
  eq→==, if◌then◌else◌, [], done, arith,
}
use lab.Frames.{page2ppn, page2pa}
use lab.Buddy
use lab.Buddy.{buddy_init}
use lab.Buddy.Lists.{Lists, cover, weigh-empty, holds_page}
use lab.Buddy.Holds.{Holds}
use lab.Buddy.Init.{buddy_init-Holds}
use lab.Buddy.Region.{Grown, in_region, buddy_init_memmap-Grown}
use lab.Pmm.{boot_frames, init_pmm_manager, page_init, reserve_pages}
use lab.Pmm.Managers.{set_buddy_reserved, buddy_pmm_manager}
use lab.Pmm.Boot.{Layout, frame_count, free_start, first_frame, page_init-run}

-- The loop over the descriptors marks them, and changes nothing else.
reserve_pages_lem :
    (k p : ℕ) (s : Buddy.State)
    → (r : ℕ → Bool) × (reserve_pages buddy_pmm_manager k p s ≡ record s { reserved = r })
      × ((q : ℕ) → q < p → r q ≡ s.reserved q)
      × ((q : ℕ) → p ≤ q → q < p + k → r q ≡ true)
unfolding reserve_pages set_buddy_reserved
reserve_pages_lem zero p s = (s.reserved, refl, (λ q h. refl), λ q lo hi. absurd (omega arith))
reserve_pages_lem (suc k) p s =
    let (r, e, below, marked) = reserve_pages_lem k (p + 1) (set_buddy_reserved p s) in
    (
      r,
      e,
      (λ q h. below q (omega arith) ∙ rw (ne→== q p (λ z. absurd (omega arith))) refl),
      λ q lo hi. elim (dec_lt p q) [
        | yes behind ↦ marked q (omega arith) (omega arith)
        | no here ↦ below q (omega arith) ∙ rw (eq→== q p (omega arith)) refl
      ],
    )

-- The frames whose pages are free, and counted: those that lie in memory behind `free_from` as a whole.
pub record Booted (first free_from mem_end : ℕ) (s' : Buddy.State) : Type 0 where
  pub lists : Lists
  pub holds : Holds s' lists
  pub free :
      (q : ℕ)
      → first ≤ q
      → q < first + frame_count mem_end
      → let f = boot_frames first mem_end in
        cover lists q
        ≡ (if leb free_from (page2pa f q) && leb (page2pa f q + 4096) mem_end then 1 else 0)
  pub before : (q : ℕ) → q < first → cover lists q ≡ 0
  pub behind : (q : ℕ) → first + frame_count mem_end ≤ q → cover lists q ≡ 0
  pub count : s'.nr_free ≡ mem_end / 4096 - (free_from + 4095) / 4096

page2pa_lem :
    (first mem_end q : ℕ)
    → mem_end < 2 ^ 44
    → first ≤ q
    → q < first + frame_count mem_end
    → q < 2 ^ 64
    → page2pa (boot_frames first mem_end) q ≡ (q - first + 0x80000) * 4096
unfolding page2pa page2ppn boot_frames
page2pa_lem first mem_end q small lo hi word = omega arith

-- Frame i of the region, by numbers of frames and by addresses.
in_region-page2pa :
    (first end mem_end q : ℕ)
    → Layout end mem_end
    → first_frame end mem_end < mem_end / 4096
    → first ≤ q
    → q < first + frame_count mem_end
    → let pa = (q - first + 0x80000) * 4096 in
      in_region q
        (first + first_frame end mem_end - 0x80000)
        (mem_end / 4096 - first_frame end mem_end)
      ≡ (if leb (free_start end mem_end) pa && leb (pa + 4096) mem_end then 1 else 0)
in_region-page2pa first end mem_end q l room lo hi =
    let start = free_start end mem_end in
    let low : 0x80200000 ≤ start = omega (arith, l.kernel) in go start low room
  where
    go :
        (start : ℕ)
        → 0x80200000 ≤ start
        → (start + 4095) / 4096 < mem_end / 4096
        → let pa = (q - first + 0x80000) * 4096 in
          in_region q
            (first + (start + 4095) / 4096 - 0x80000)
            (mem_end / 4096 - (start + 4095) / 4096)
          ≡ (if leb start pa && leb (pa + 4096) mem_end then 1 else 0)
    go start low room = ground arith

cover_of_empty :
    {p n : ℕ} {s' : Buddy.State} (g : Grown (λ o. []) p n s') (q : ℕ)
    → cover g.lists q ≡ in_region q p n
cover_of_empty g q = omega (arith, g.covers q, weigh-empty (holds_page q))

in_region_before : (q p n : ℕ) → q < p → in_region q p n ≡ 0
in_region_before q p n h = ground arith

in_region_behind : (q p n : ℕ) → p + n ≤ q → in_region q p n ≡ 0
in_region_behind q p n h = ground arith

-- After init_pmm_manager and page_init the buddy manager has free lists in order, and the page of
-- a frame is free exactly if the frame lies, as a whole, between the end of the page descriptors
-- and the end of memory; no page before the first or behind the last is free, and nr_free is the
-- number of these frames. Memory ends below 2^44 and has room for one such frame, the kernel and
-- the descriptors stand in the addresses from KERNBASE on, and the descriptors have 64-bit numbers
-- above those of the list heads.
pub page_init-Booted :
    (first end mem_begin mem_size : ℕ) (s : Buddy.State)
    → 10 < first
    → first + frame_count (mem_begin + mem_size) < 2 ^ 64
    → 0 < mem_size
    → Layout end (mem_begin + mem_size)
    → let mem_end = mem_begin + mem_size in
      first_frame end mem_end < mem_end / 4096
      → let f = boot_frames first mem_end in
        (s' : Buddy.State) × (page_init buddy_pmm_manager first end mem_begin mem_size
            (init_pmm_manager buddy_pmm_manager s)
          ≡ done (f, s'))
        × Booted first (free_start end mem_end) mem_end s'
unfolding init_pmm_manager
page_init-Booted first end mem_begin mem_size s above word some l room =
    let mem_end = mem_begin + mem_size in
    let start = first_frame end mem_end in
    let (r, e, _, marked) = reserve_pages_lem (frame_count mem_end) first (buddy_init s) in
    let v = buddy_init-Holds s in
    let v1 : Holds (record (buddy_init s) { reserved = r }) (λ o. []) = record {
      rings = v.rings;
      descs = λ o h. tt;
      disjoint = v.disjoint;
      count = v.count;
      small = v.small;
    } in
    let (s', run, g) =
      buddy_init_memmap-Grown (first + start - 0x80000) (mem_end / 4096 - start) v1
        (omega (arith, room)) (omega (arith, l.kernel)) (λ q lo hi. weigh-empty (holds_page q))
        (λ q lo hi. marked q (omega (arith, l.kernel)) (omega (arith, l.kernel, l.dram)))
        (omega (arith, l.small, weigh-empty (λ o p. 2 ^ o))) in
    (
      s',
      page_init-run buddy_pmm_manager first end mem_begin mem_size (buddy_init s) some l room
          ∙ rw (e, run) refl,
      record {
        lists = g.lists;
        holds = g.holds;
        free = λ q lo hi.
            cover_of_empty g q
            ∙ rw (page2pa_lem first mem_end q l.small lo hi (omega (arith, hi, word)))
                (in_region-page2pa first end mem_end q l room lo hi);
        before = λ q lo. cover_of_empty g q ∙ in_region_before q _ _ (omega (arith, l.kernel));
        behind =
            λ q lo. cover_of_empty g q ∙ in_region_behind q _ _ (omega (arith, l.kernel, room));
        count = omega (arith, g.holds.count, g.free_pages, weigh-empty (λ o p. 2 ^ o));
      },
    )
