-- ===== src/FreeArea/Check.antt =====
-- The self-checks that kern/mm/default_pmm.c and kern/mm/best_fit_pmm.c share line by line, as
-- programs over the state of the page manager. `alloc` and `free` stand for `alloc_pages` and
-- `free_pages` of kern/mm/pmm.c, which call the manager in use. Counts are `int`s, here their 32 bits.
use lab.Base.{
  ℕ, zero, suc, ◌+◌, ◌-◌, ◌*◌, ◌^◌, Bool, not, ◌&&◌, ltb, ◌==◌, if◌then◌else◌, u32, Run, done,
  panicked, out_of_fuel,
}
use lab.Base.Program.{Program, ◌>>=◌, ◌>>◌, pure, gets, modify, call, require}
use lab.LinkList.{Entry, list_init, list_empty, list_next}
use lab.Frames.{Frames, page_size, page2pa}
use lab.FreeArea.{State, rounds}

-- `p != NULL`
abbrev pub not_null : ℕ → Bool
not_null p = not (p == 0)

-- The head is one of the two variables that the checks save and restore.
unfoldable pub set_head : Entry → State → State
set_head e s = record s { links = λ x. if x == 0 then e else s.links x }

abbrev pub set_nr_free : ℕ → State → State
set_nr_free n s = record s { nr_free = n }

unfoldable pub clear_head : State → State
clear_head s = record s { links = list_init 0 s.links }

abbrev pub has_property : ℕ → State → Bool
has_property p s = (s.pages p).head

-- The first walk: the number of blocks, and their pages.
unfoldable pub count_blocks : ℕ → ℕ → ℕ → ℕ → Program State (ℕ × ℕ)
count_blocks zero le count total s = out_of_fuel
count_blocks (suc k) le count total s =
    let p = list_next le s.links in
    let on = count_blocks k p (u32 (count + 1)) (u32 (total + (s.pages p).property)) s in
    if p == 0 then done ((count, total), s) else if has_property p s then on else panicked

-- The last walk, which counts down.
unfoldable pub discount_blocks : ℕ → ℕ → ℕ → ℕ → Program State (ℕ × ℕ)
discount_blocks zero le count total s = out_of_fuel
discount_blocks (suc k) le count total s =
    let p = list_next le s.links in
    let on =
      discount_blocks k p (u32 (count + 2 ^ 32 - 1)) (u32 (total + 2 ^ 32 - (s.pages p).property))
        s in
    if p == 0 then done ((count, total), s) else on

-- An `int` compared with a `size_t` is extended by its sign.
unfoldable pub extend : ℕ → ℕ
extend i = if ltb i (2 ^ 31) then i else i + 2 ^ 64 - 2 ^ 32

module _ (f : Frames) (alloc : ℕ → Program State ℕ) (free : ℕ → ℕ → State → Run State) where
  -- `assert((p = alloc_page()) != NULL)`
  unfoldable pub alloc_some : ℕ → Program State ℕ
  alloc_some n = do p ← alloc n; require (not_null p); pure p

  -- `assert(alloc_pages(n) == NULL)`
  unfoldable pub alloc_none : ℕ → Program State (Unit {0})
  alloc_none n = do p ← alloc n; require (p == 0)

  unfoldable pub basic_check : Program State (Unit {0})
  unfolding alloc_some alloc_none
  basic_check = do
    p0 ← alloc_some 1
    p1 ← alloc_some 1
    p2 ← alloc_some 1
    require (not (p0 == p1) && not (p0 == p2) && not (p1 == p2))
    pages ← gets (λ s. s.pages)
    require ((pages p0).ref == 0 && (pages p1).ref == 0 && (pages p2).ref == 0)
    require (ltb (page2pa f p0) (f.npage * page_size))
    require (ltb (page2pa f p1) (f.npage * page_size))
    require (ltb (page2pa f p2) (f.npage * page_size))
    free_list_store ← gets (λ s. s.links 0)
    modify clear_head
    empty ← gets (λ s. list_empty 0 s.links)
    require empty
    nr_free_store ← gets (λ s. s.nr_free)
    modify (set_nr_free 0)
    alloc_none 1
    call (free p0 1)
    call (free p1 1)
    call (free p2 1)
    freed ← gets (λ s. s.nr_free)
    require (freed == 3)
    q0 ← alloc_some 1
    q1 ← alloc_some 1
    q2 ← alloc_some 1
    alloc_none 1
    call (free q0 1)
    empty' ← gets (λ s. list_empty 0 s.links)
    require (not empty')
    p ← alloc 1
    require (p == q0)
    alloc_none 1
    left ← gets (λ s. s.nr_free)
    require (left == 0)
    modify (set_head free_list_store)
    modify (set_nr_free nr_free_store)
    call (free p 1)
    call (free q1 1)
    call (free q2 1)

  -- The walk at the start of both checks.
  unfoldable pub count_free : (State → ℕ) → Program State (ℕ × ℕ)
  count_free nr_free_pages = do
    n ← gets (λ s. s.nr_free)
    (count, total) ← count_blocks (rounds n) 0 0 0
    free_pages ← gets nr_free_pages
    require (extend total == free_pages)
    pure (count, total)

  -- The walk at the end of both checks.
  unfoldable pub count_again : ℕ → ℕ → Program State (Unit {0})
  count_again count total = do
    n ← gets (λ s. s.nr_free)
    (count', total') ← discount_blocks (rounds n) 0 count total
    require (count' == 0)
    require (total' == 0)
