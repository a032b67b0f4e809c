-- ===== src/FirstFit/Check.antt =====
-- `default_check` of kern/mm/default_pmm.c, which `pmm_init` runs on the manager in use.
mod Tests
use lab.Base.{ℕ, ◌+◌, ◌-◌, not, ◌&&◌, ◌==◌, Run}
use lab.Base.Program.{Program, ◌>>=◌, ◌>>◌, gets, modify, call, require}
use lab.LinkList.{list_empty}
use lab.Frames.{Frames}
use lab.FreeArea.{State}
use lab.FreeArea.Check.{
  set_head, set_nr_free, clear_head, has_property, alloc_some, alloc_none, basic_check, count_free,
  count_again,
}

module _ (f : Frames) (alloc : ℕ → Program State ℕ) (free : ℕ → ℕ → State → Run State)
    (nr_free_pages : State → ℕ) where
  -- The block at p has n pages and carries the property bit.
  unfoldable pub is_block : ℕ → ℕ → Program State (Unit {0})
  is_block p n = do ok ← gets (λ s. has_property p s && (s.pages p).property == n); require ok

  unfoldable pub default_check : Program State (Unit {0})
  unfolding is_block
  default_check = do
    (count, total) ← count_free f alloc free nr_free_pages
    basic_check f alloc free
    p0 ← alloc_some f alloc free 5
    head ← gets (has_property p0)
    require (not head)
    free_list_store ← gets (λ s. s.links 0)
    modify clear_head
    empty ← gets (λ s. list_empty 0 s.links)
    require empty
    alloc_none f alloc free 1
    nr_free_store ← gets (λ s. s.nr_free)
    modify (set_nr_free 0)
    call (free (p0 + 2) 3)
    alloc_none f alloc free 4
    is_block (p0 + 2) 3
    p1 ← alloc_some f alloc free 3
    alloc_none f alloc free 1
    require (p0 + 2 == p1)
    let p2 = p0 + 1
    call (free p0 1)
    call (free p1 3)
    is_block p0 1
    is_block p1 3
    q0 ← alloc 1
    require (q0 == p2 - 1)
    call (free q0 1)
    r0 ← alloc 2
    require (r0 == p2 + 1)
    call (free r0 2)
    call (free p2 1)
    t0 ← alloc_some f alloc free 5
    alloc_none f alloc free 1
    left ← gets (λ s. s.nr_free)
    require (left == 0)
    modify (set_nr_free nr_free_store)
    modify (set_head free_list_store)
    call (free t0 5)
    count_again f alloc free count total
