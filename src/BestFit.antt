-- ===== src/BestFit.antt =====
-- kern/mm/best_fit_pmm.c: the best-fit manager. `free_list` and `nr_free` are the state of FreeArea.
pub mod Alloc
pub mod Check
mod Tests
use lab.Base.{
  ℕ, zero, suc, ◌+◌, ◌&&◌, ltb, leb, ◌==◌, if◌then◌else◌, u32, Run, done, out_of_fuel, ◌>>=◌, ◌>>◌,
  assert,
}
use lab.LinkList.{list_next}
use lab.FreeArea.{State, rounds, init, init_memmap, take_pages, free_pages}

unfoldable pub best_fit_init : State → State
best_fit_init = init

unfoldable pub best_fit_init_memmap : ℕ → ℕ → State → Run State
best_fit_init_memmap = init_memmap

-- The search of `best_fit_alloc_pages`, with the best page and its size so far.
unfoldable pub find_best : ℕ → ℕ → ℕ → ℕ → ℕ → State → Run ℕ
find_best zero n le page min_size s = out_of_fuel
find_best (suc k) n le page min_size s =
    let p = list_next le s.links in
    let size = (s.pages p).property in
    let better = leb n size && ltb size min_size in
    let on = find_best k n p (if better then p else page) (if better then size else min_size) s in
    if p == 0 then done page else on

-- `size_t min_size = nr_free + 1` is computed in `unsigned int`.
unfoldable pub best_fit_alloc_pages : ℕ → State → Run (ℕ × State)
best_fit_alloc_pages n s = do
  assert (ltb 0 n)
  if ltb s.nr_free n then done (0, s) else do
    page ← find_best (rounds s.nr_free) n 0 0 (u32 (s.nr_free + 1)) s
    done (if page == 0 then (0, s) else (page, take_pages page n s))

unfoldable pub best_fit_free_pages : ℕ → ℕ → State → Run State
best_fit_free_pages = free_pages

unfoldable pub best_fit_nr_free_pages : State → ℕ
best_fit_nr_free_pages s = s.nr_free
