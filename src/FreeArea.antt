-- ===== src/FreeArea.antt =====
-- The state of kern/mm/default_pmm.c and kern/mm/best_fit_pmm.c, and the code that the two files
-- share line by line: page descriptors (kern/mm/memlayout.h), the insertion of a block in address
-- order, the removal of pages from a chosen block, and the two merges.
--
-- A `struct Page *` is the number of the page descriptor, counted so that no page has number 0,
-- which is `NULL`. The list entry inside page p has number p too (`le2page` and `&p->page_link` are
-- the identity), and the list head `free_list` has number 0.
pub mod Arena
pub mod Blocks
pub mod Check
pub mod Coalesce
pub mod Free
pub mod Holds
pub mod Outcome
pub mod Spec
pub mod Tail
pub mod Take
mod Tests
pub mod Walk
pub mod Insert
pub mod Release
pub mod Merge
use lab.Base.{
  ℕ, zero, suc, ◌+◌, Bool, true, false, not, ◌&&◌, ltb, ◌==◌, if◌then◌else◌, u32, sub64, Run, done,
  out_of_fuel, ◌>>=◌, ◌>>◌, assert,
}
use lab.LinkList.{
  Store, list_add, list_add_before, list_del, list_empty, list_next, list_prev, list_init,
}

-- `struct Page` less its list entry. The code reads and writes only two bits of `flags`:
-- `PG_reserved` and `PG_property`, here `reserved` and `head`.
pub record Page : Type 0 where
  pub ref : ℕ
  pub reserved : Bool
  pub head : Bool
  pub property : ℕ

-- `pages` holds the page descriptors, `links` their list entries and the head's.
pub record State : Type 0 where
  pub pages : ℕ → Page
  pub links : Store
  pub nr_free : ℕ

-- `*p = v`
unfoldable pub put : ℕ → Page → (ℕ → Page) → ℕ → Page
put p v pages = λ q. if q == p then v else pages q

abbrev pub set_page_property : ℕ → (ℕ → Page) → ℕ → Page
set_page_property p pages = put p (record (pages p) { head = true }) pages

abbrev pub clear_page_property : ℕ → (ℕ → Page) → ℕ → Page
clear_page_property p pages = put p (record (pages p) { head = false }) pages

abbrev pub set_property : ℕ → ℕ → (ℕ → Page) → ℕ → Page
set_property p n pages = put p (record (pages p) { property = u32 n }) pages

-- `list_init(&free_list); nr_free = 0;`
unfoldable pub init : State → State
init s = record s { links = list_init 0 s.links; nr_free = 0 }

-- The loop of `init_memmap` over its pages.
unfoldable pub clear_pages : ℕ → ℕ → (ℕ → Page) → Run (ℕ → Page)
clear_pages zero p pages = done pages
clear_pages (suc k) p pages = do
  assert (pages p).reserved
  clear_pages k (p + 1)
      (put p (record { ref = 0; reserved = false; head = false; property = 0 }) pages)

-- The loop of `free_pages` over its pages.
unfoldable pub release_pages : ℕ → ℕ → (ℕ → Page) → Run (ℕ → Page)
release_pages zero p pages = done pages
release_pages (suc k) p pages = do
  assert (not (pages p).reserved && not (pages p).head)
  release_pages k (p + 1)
      (put p (record (pages p) { ref = 0; reserved = false; head = false }) pages)

-- `while ((le = list_next(le)) != &free_list) …`. The branch that has reached the end of the list
-- has no `break`: the loop goes on from there.
unfoldable pub insert_loop : ℕ → ℕ → ℕ → Store → Run Store
insert_loop zero base le l = out_of_fuel
insert_loop (suc k) base le l =
    let page = list_next le l in
    let on = insert_loop k base page (if list_next page l == 0 then list_add page base l else l) in
    if page == 0 then done l else if ltb base page then done (list_add_before page base l) else on

-- The insertion of a block in address order.
unfoldable pub insert : ℕ → ℕ → Store → Run Store
insert fuel base l = if list_empty 0 l then done (list_add 0 base l) else insert_loop fuel base 0 l

-- Every block on the list has a page, so a walk of the list takes at most `nr_free` rounds; one
-- more finds the end, and one more comes of the missing `break`.
abbrev pub rounds : ℕ → ℕ
rounds nr_free = nr_free + 2

-- `base->property = n; SetPageProperty(base); nr_free += n;` and the insertion.
unfoldable pub add_block : ℕ → ℕ → (ℕ → Page) → State → Run State
add_block base n pages s = do
  let nr_free = u32 (s.nr_free + n)
  links ← insert (rounds nr_free) base s.links
  done (record {
    pages = set_page_property base (set_property base n pages);
    links = links;
    nr_free = nr_free;
  })

unfoldable pub init_memmap : ℕ → ℕ → State → Run State
init_memmap base n s = do
  assert (ltb 0 n)
  pages ← clear_pages n base s.pages
  add_block base n pages s

-- `if (page != NULL) { … }`: the first `n` pages of the chosen block leave the list.
unfoldable pub take_pages : ℕ → ℕ → State → State
take_pages page n s =
    let prev = list_prev page s.links in
    let links = list_del page s.links in
    let size = (s.pages page).property in
    let p = page + n in
    let split = ltb n size in
    record {
      pages =
          clear_page_property page (
            if split then set_page_property p (set_property p (sub64 size n) s.pages) else s.pages);
      links = if split then list_add prev p links else links;
      nr_free = u32 (sub64 s.nr_free n);
    }

-- The merge with the block before: the address of the merged block, and the state.
unfoldable pub merge_prev : ℕ → State → ℕ × State
merge_prev base s =
    let p = list_prev base s.links in
    let size = (s.pages p).property in
    if p == 0
    then (base, s)
    else if p + size == base
    then (
      p,
      record s {
        pages = clear_page_property base (set_property p (size + (s.pages base).property) s.pages);
        links = list_del base s.links;
      },
    )
    else (base, s)

-- The merge with the block after.
unfoldable pub merge_next : ℕ → State → State
merge_next base s =
    let p = list_next base s.links in
    let size = (s.pages base).property in
    if p == 0
    then s
    else if base + size == p
    then record s {
      pages = clear_page_property p (set_property base (size + (s.pages p).property) s.pages);
      links = list_del p s.links;
    }
    else s

unfoldable pub free_pages : ℕ → ℕ → State → Run State
free_pages base n s = do
  assert (ltb 0 n)
  pages ← release_pages n base s.pages
  s' ← add_block base n pages s
  let (base', s'') = merge_prev base s'
  done (merge_next base' s'')
