-- ===== src/BestFit/Check.antt =====
-- `best_fit_check` of kern/mm/best_fit_pmm.c. The points that a build for grading counts and prints are
-- left out.
mod Tests
use lab.Base.{ℕ, ◌+◌, not, ◌&&◌, ◌==◌, Run}
use lab.Base.Program.{Program, ◌>>=◌, ◌>>◌, gets, modify, call, require}
use lab.LinkList.{list_empty}
use lab.Frames.{Frames}
use lab.FreeArea.{State}
use lab.FreeArea.Check.{
  set_head, set_nr_free, clear_head, has_property, alloc_some, alloc_none, basic_check, count_free,
  count_again,
}

module _ (f : Frames) (alloc : ℕ → Program State ℕ) (free : ℕ → ℕ → State → Run State)
    (nr_free_pages : State → ℕ) where
  unfoldable pub best_fit_check : Program State (Unit {0})
  best_fit_check = do
    (count, total) ← count_free f alloc free nr_free_pages
    basic_check f alloc free
    p0 ← alloc_some f alloc free 5
    head ← gets (has_property p0)
    require (not head)
    free_list_store ← gets (λ s. s.links 0)
    modify clear_head
    empty ← gets (λ s. list_empty 0 s.links)
    require empty
    alloc_none f alloc free 1
    nr_free_store ← gets (λ s. s.nr_free)
    modify (set_nr_free 0)
    call (free (p0 + 1) 2)
    call (free (p0 + 4) 1)
    alloc_none f alloc free 4
    block ← gets (λ s. has_property (p0 + 1) s && (s.pages (p0 + 1)).property == 2)
    require block
    p1 ← alloc_some f alloc free 1
    q ← alloc_some f alloc free 2
    require (p0 + 4 == p1)
    call (free p0 5)
    t0 ← alloc_some f alloc free 5
    alloc_none f alloc free 1
    left ← gets (λ s. s.nr_free)
    require (left == 0)
    modify (set_nr_free nr_free_store)
    modify (set_head free_list_store)
    call (free t0 5)
    count_again f alloc free count total
