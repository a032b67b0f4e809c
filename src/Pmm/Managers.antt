-- ===== src/Pmm/Managers.antt =====
-- The three page managers as values of the interface.
use lab.Base.{ℕ, true, ◌==◌, if◌then◌else◌}
use lab.FreeArea
use lab.FreeArea.{Page, put}
use lab.Buddy
use lab.FirstFit.{
  default_init, default_init_memmap, default_alloc_pages, default_free_pages, default_nr_free_pages,
}
use lab.FirstFit.Check.{default_check}
use lab.BestFit.{
  best_fit_init, best_fit_init_memmap, best_fit_alloc_pages, best_fit_free_pages,
  best_fit_nr_free_pages,
}
use lab.BestFit.Check.{best_fit_check}
use lab.Buddy.{
  buddy_init, buddy_init_memmap, buddy_alloc_pages, buddy_free_pages, buddy_nr_free_pages,
}
use lab.Buddy.Check.{buddy_check}
use lab.Pmm.{Manager}

unfoldable pub set_page_reserved : ℕ → FreeArea.State → FreeArea.State
set_page_reserved p s = record s { pages = put p (record (s.pages p) { reserved = true }) s.pages }

abbrev pub default_pmm_manager : Manager FreeArea.State
default_pmm_manager = record {
  init = default_init;
  init_memmap = default_init_memmap;
  alloc_pages = default_alloc_pages;
  free_pages = λ f. default_free_pages;
  nr_free_pages = default_nr_free_pages;
  check = λ f. default_check f default_alloc_pages default_free_pages default_nr_free_pages;
  set_page_reserved = set_page_reserved;
}

abbrev pub best_fit_pmm_manager : Manager FreeArea.State
best_fit_pmm_manager = record {
  init = best_fit_init;
  init_memmap = best_fit_init_memmap;
  alloc_pages = best_fit_alloc_pages;
  free_pages = λ f. best_fit_free_pages;
  nr_free_pages = best_fit_nr_free_pages;
  check = λ f. best_fit_check f best_fit_alloc_pages best_fit_free_pages best_fit_nr_free_pages;
  set_page_reserved = set_page_reserved;
}

unfoldable pub set_buddy_reserved : ℕ → Buddy.State → Buddy.State
set_buddy_reserved p s = record s { reserved = λ q. if q == p then true else s.reserved q }

-- The manager that `init_pmm_manager` selects.
abbrev pub buddy_pmm_manager : Manager Buddy.State
buddy_pmm_manager = record {
  init = buddy_init;
  init_memmap = buddy_init_memmap;
  alloc_pages = buddy_alloc_pages;
  free_pages = λ f. buddy_free_pages f.pages;
  nr_free_pages = buddy_nr_free_pages;
  check = λ f. buddy_check buddy_alloc_pages (buddy_free_pages f.pages) buddy_nr_free_pages;
  set_page_reserved = set_buddy_reserved;
}
