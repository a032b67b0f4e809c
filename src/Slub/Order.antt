-- ===== src/Slub/Order.antt =====
-- The slab allocator and its page manager in order together, and the two changes that `kmalloc` makes.
use lab.Base.{◌+◌, ℕ, ◌≤◌, ◌<◌, ◌≡◌, ◌≢◌, List, [], refl, ◌∷◌, NotIn, Run, done, arith}
use lab.Slub.Caches.{init_caches-set}
use lab.Slub.{slub_init, State, take_object, page_address}
use lab.Slub.Chain.{put_there}
use lab.Slub.Reuse.{taken}
use lab.Slub.Valid.{Ghost, IsValid}
use lab.Slub.Added.{add_page, added-IsValid}
use lab.Slub.Page.{with_page, threaded, with_page-IsAdded, with_page-pmm, with_page-free}
use lab.Slub.Supply.{
  Supplier, Mapped, page_address-whole, page_address-nonzero, page_address-injective,
}
use lab.Slub.Alloc.{Handed, take_object-Handed, IsValid-pmm}

-- No page is a slab.
abbrev pub empty_slabs : Ghost
empty_slabs = record { class = λ q. 10; lists = λ i. []; free = λ q. []; held = [] }

module _ {P : Type 0} (alloc_pages : ℕ → P → Run (ℕ × P)) (page_base nbase offset : ℕ)
    (supplier : Supplier alloc_pages page_base) where
  -- The state is in order, the page manager has given the pages `given`, and no other is a slab.
  pub record InOrder (s : State P) (g : Ghost) (given : List ℕ) : Type 0 where
    pub valid : IsValid s g
    pub kept : supplier.Keeps s.pmm given
    pub fresh :
        (pg : ℕ)
        → page_base ≤ pg
        → pg < page_base + supplier.page_count
        → NotIn pg given
        → 10 ≤ g.class (page_address alloc_pages page_base nbase offset pg)

  -- `slub_init` leaves a state in order that has no slab.
  pub slub_init-InOrder :
      (s : State P) (given : List ℕ)
      → supplier.Keeps s.pmm given
      → InOrder (slub_init s) empty_slabs given
  unfolding slub_init
  slub_init-InOrder s given kept = record {
    valid = record {
      chains = λ i h. rw (init_caches-set 10 0 i s.caches (omega arith) h) refl;
      sizes = λ i h. rw (init_caches-set 10 0 i s.caches (omega arith) h) refl;
      classes = λ i h. tt;
      slabs = λ sp h. absurd (omega arith);
      objects = tt;
      distinct = tt;
    };
    kept = kept;
    fresh = λ pg lo hi out. omega arith;
  }

module _ {P : Type 0} (alloc_pages : ℕ → P → Run (ℕ × P)) (page_base nbase offset : ℕ)
    (supplier : Supplier alloc_pages page_base)
    (mapped : Mapped nbase offset supplier.page_count) where
  abbrev Keeping : State P → Ghost → List ℕ → Type 0
  Keeping = InOrder alloc_pages page_base nbase offset supplier

  -- An object of a page that has one is handed out.
  pub serve :
      (sp : ℕ) (s : State P) (g : Ghost) (given : List ℕ)
      → Keeping s g given
      → g.class sp < 10
      → (s.slabs sp).free_list ≢ 0
      → (ptr : ℕ) × (s' : State P) × (g' : Ghost) × (take_object sp s ≡ done (ptr, s'))
        × Keeping s' g' given
        × Handed (g.class sp) g ptr g'
  unfolding taken
  serve sp s g given io slab free =
      let (ptr, g', run, handed, valid, same) = take_object-Handed sp s g io.valid slab free in
      (
        ptr,
        taken sp s,
        g',
        run,
        record { valid = valid; kept = io.kept; fresh = rw same io.fresh },
        handed,
      )

  pub page_above :
      (pg : ℕ)
      → page_base ≤ pg
      → pg < page_base + supplier.page_count
      → 0 < page_address alloc_pages page_base nbase offset pg
  page_above = page_address-nonzero alloc_pages page_base nbase offset supplier.page_count mapped

  -- A page that the page manager gives becomes a slab.
  pub add :
      (i pg : ℕ) (s : State P) (g : Ghost) (given : List ℕ) (pmm : P)
      → let sp = page_address alloc_pages page_base nbase offset pg in
        Keeping s g given
        → i < 9
        → page_base ≤ pg
        → pg < page_base + supplier.page_count
        → NotIn pg given
        → supplier.Keeps pmm (pg ∷ given)
        → (os : List ℕ) × Keeping
            (with_page i sp (record s { pmm = pmm }))
            (add_page i sp os g)
            (pg ∷ given)
          × (((with_page i sp (record s { pmm = pmm })).slabs sp).free_list ≢ 0)
  add i pg s g given pmm io small above below new kept =
      let sp = page_address alloc_pages page_base nbase offset pg in
      let s1 = record s { pmm = pmm } in
      let v = IsValid-pmm pmm s g io.valid in
      let whole =
        page_address-whole alloc_pages page_base nbase offset supplier.page_count mapped pg in
      let some_address = page_above pg above below in
      let size = v.sizes i (omega arith) in
      let page = with_page-IsAdded i sp s1 (omega arith) some_address whole size in
      let os = (threaded i sp s1 (omega arith) some_address whole size).objects in
      (
        os,
        record {
          valid =
              added-IsValid i sp os s1 (with_page i sp s1) g v page (io.fresh pg above below new)
                (omega arith);
          kept = rw (with_page-pmm i sp s1 (omega arith) some_address whole size) kept;
          fresh = λ q lo hi out.
              let ne : page_address alloc_pages page_base nbase offset q ≢ sp = λ e. out.0 (
                page_address-injective alloc_pages page_base nbase offset supplier.page_count mapped
                  q pg lo above hi below e) in
              rw (put_there sp (page_address alloc_pages page_base nbase offset q) i g.class ne)
                (io.fresh q lo hi out.1);
        },
        with_page-free i sp s1 (omega arith) some_address whole size small,
      )
