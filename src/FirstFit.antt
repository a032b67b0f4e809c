-- ===== src/FirstFit.antt =====
-- kern/mm/default_pmm.c: the first-fit manager. `free_list` and `nr_free` are the state of FreeArea.
pub mod Alloc
pub mod Check
pub mod Roundtrip
mod Tests
pub mod Twice
use lab.Base.{
  ℕ, zero, suc, ltb, leb, ◌==◌, if◌then◌else◌, Run, done, out_of_fuel, ◌>>=◌, ◌>>◌, assert,
}
use lab.LinkList.{list_next}
use lab.FreeArea.{State, rounds, init, init_memmap, take_pages, free_pages}

unfoldable pub default_init : State → State
default_init = init

unfoldable pub default_init_memmap : ℕ → ℕ → State → Run State
default_init_memmap = init_memmap

-- The search of `default_alloc_pages`: the first block with `property >= n`, or `NULL`.
unfoldable pub find_first : ℕ → ℕ → ℕ → State → Run ℕ
find_first zero n le s = out_of_fuel
find_first (suc k) n le s =
    let p = list_next le s.links in
    let on = find_first k n p s in
    if p == 0 then done 0 else if leb n (s.pages p).property then done p else on

unfoldable pub default_alloc_pages : ℕ → State → Run (ℕ × State)
default_alloc_pages n s = do
  assert (ltb 0 n)
  if ltb s.nr_free n then done (0, s) else do
    page ← find_first (rounds s.nr_free) n 0 s
    done (if page == 0 then (0, s) else (page, take_pages page n s))

unfoldable pub default_free_pages : ℕ → ℕ → State → Run State
default_free_pages = free_pages

unfoldable pub default_nr_free_pages : State → ℕ
default_nr_free_pages s = s.nr_free
