-- ===== src/Slub/Serve.antt =====
-- `kmalloc` of kern/mm/slub.c for sizes that a page has objects for, over any page manager that does not
-- give a page twice.
use mathlib.Core.Path.{subst}
use native.Mathlib.Decide.{dec_lt}
use lab.Base.{
  ◌+◌, ℕ, ◌≤◌, ◌<◌, ◌≡◌, ◌≢◌, ◌⊎◌, inl, inr, refl, ap, ◌∙◌, List, ◌∷◌, length, All, NotIn, Run,
  done, arith,
}
use lab.Slub.{State, find_slab, size_to_index, kmalloc, page_address}
use lab.Slub.Chain.{put_here, put_there}
use lab.Slub.Classes.{size_to_index-IsClass}
use lab.Slub.Valid.{Ghost}
use lab.Slub.Added.{add_page}
use lab.Slub.Page.{with_page}
use lab.Slub.Supply.{Supplier, Mapped, page_address-nonzero}
use lab.Slub.Alloc.{find_slab-Outcome, Handed, IsValid-pmm}
use lab.Slub.Order.{InOrder, serve, add}
use lab.Slub.Paths.{kmalloc_found, kmalloc_none, kmalloc_page}

-- An object that is new to a state with one page more is new to the state.
Handed-add_page :
    (i sp : ℕ) (os : List ℕ) (ptr : ℕ) (g g' : Ghost)
    → 10 ≤ g.class sp
    → Handed i (add_page i sp os g) ptr g'
    → Handed i g ptr g'
Handed-add_page i sp os ptr g g' new_page x = record {
  nonzero = x.nonzero;
  new = x.new;
  held = x.held;
  class = x.class;
  same = λ q h.
      let other : q ≢ sp =
        λ e. let z : g.class q ≡ g.class sp = ap g.class e in absurd (omega arith) in
      let before = put_there sp q i g.class other in x.same q (rw before h) ∙ before;
  others = λ j ne. x.others j ne ∙ put_there i j (sp ∷ g.lists i) g.lists ne;
}

module _ {P : Type 0} (alloc_pages : ℕ → P → Run (ℕ × P)) (page_base nbase offset : ℕ)
    (supplier : Supplier alloc_pages page_base)
    (mapped : Mapped nbase offset supplier.page_count) where
  -- `kmalloc` gave an object, or none since no page of its class has one and the page manager no page.
  pub record Served (i : ℕ) (s : State P) (g : Ghost) (ptr : ℕ) (s' : State P) (g' : Ghost)
      (given : List ℕ) : Type 0 where
    pub order : InOrder alloc_pages page_base nbase offset supplier s' g' given
    pub result :
        ((ptr ≡ 0)
          × (g' ≡ g)
          × All (λ sp. (s.slabs sp).free_list ≡ 0) (g.lists i)
          × ((pmm : P) × (alloc_pages 1 s.pmm ≡ done (0, pmm))))
        ⊎ Handed i g ptr g'

  -- What `kmalloc` ends with.
  abbrev pub Result : ℕ → ℕ → State P → Ghost → Type 0
  Result k size s g =
      (ptr : ℕ) × (s' : State P) × (g' : Ghost) × (given' : List ℕ) × (kmalloc alloc_pages page_base
          nbase offset k size s
        ≡ done (ptr, s'))
      × Served (size_to_index size) s g ptr s' g' given'

  module _ (k size : ℕ) (s : State P) (g : Ghost) (given : List ℕ)
      (io : InOrder alloc_pages page_base nbase offset supplier s g given) (pos : 0 < size)
      (small : size ≤ 2048) where
    low : size_to_index size < 9
    low =
        let c = size_to_index-IsClass size (omega arith) in
        elim (dec_lt (size_to_index size) 9) [
          | yes h ↦ h
          | no h ↦ absurd (omega (arith, c.least 8 (omega (arith, c.bounded))))
        ]

    from_slab :
        (sp : ℕ)
        → find_slab k (s.caches (size_to_index size)).pages s ≡ done sp
        → sp ≢ 0
        → (s.slabs sp).free_list ≢ 0
        → g.class sp ≡ size_to_index size
        → Result k size s g
    from_slab sp run some_page free class =
        let (ptr, s', g', taken_run, order, handed) =
          serve alloc_pages page_base nbase offset supplier mapped sp s g given io
            (omega (arith, class, low)) free in
        (
          ptr,
          s',
          g',
          given,
          kmalloc_found alloc_pages page_base nbase offset k size sp s pos small run some_page
              ∙ taken_run,
          record { order = order; result = inr (subst (λ j. Handed j g ptr g') class handed) },
        )

    from_page :
        (pg : ℕ) (pmm : P)
        → find_slab k (s.caches (size_to_index size)).pages s ≡ done 0
        → alloc_pages 1 s.pmm ≡ done (pg, pmm)
        → 0 < pg
        → page_base ≤ pg
        → pg < page_base + supplier.page_count
        → NotIn pg given
        → supplier.Keeps pmm (pg ∷ given)
        → Result k size s g
    from_page pg pmm run got some_page above below new kept =
        let i = size_to_index size in
        let sp = page_address alloc_pages page_base nbase offset pg in
        let (os, order, free) =
          add alloc_pages page_base nbase offset supplier mapped i pg s g given pmm io low above
            below new kept in
        let class : (add_page i sp os g).class sp ≡ i = put_here sp i g.class in
        let (ptr, s', g', taken_run, order', handed) =
          serve alloc_pages page_base nbase offset supplier mapped sp
            (with_page i sp (record s { pmm = pmm })) (add_page i sp os g) (pg ∷ given) order
            (omega (arith, class, low)) free in
        let handed' = subst (λ j. Handed j (add_page i sp os g) ptr g') class handed in
        (
          ptr,
          s',
          g',
          pg ∷ given,
          kmalloc_page alloc_pages page_base nbase offset k size pg s pmm pos small run got
                some_page
                (page_address-nonzero alloc_pages page_base nbase offset supplier.page_count mapped
                  pg above below)
              ∙ taken_run,
          record {
            order = order';
            result = inr (Handed-add_page i sp os ptr g g' (io.fresh pg above below new) handed');
          },
        )

    from_none :
        (pmm : P)
        → find_slab k (s.caches (size_to_index size)).pages s ≡ done 0
        → All (λ sp. (s.slabs sp).free_list ≡ 0) (g.lists (size_to_index size))
        → alloc_pages 1 s.pmm ≡ done (0, pmm)
        → supplier.Keeps pmm given
        → Result k size s g
    from_none pmm run full got kept = (
      0,
      record s { pmm = pmm },
      g,
      given,
      kmalloc_none alloc_pages page_base nbase offset k size s pmm pos (omega arith) run got,
      record {
        order = record { valid = IsValid-pmm pmm s g io.valid; kept = kept; fresh = io.fresh };
        result = inl (refl, refl, full, (pmm, got));
      },
    )

  -- Over any page manager that gives pages of its own only, and none twice, whose frames lie above
  -- address 0 and have virtual addresses of 64 bits that are multiples of the page size, on a
  -- state in order, kmalloc of 1 to 2048 bytes with more rounds than the class has pages ends and
  -- leaves the state in order. It gives an object of the least class with the size that was not
  -- handed out, or NULL, which changes no object and happens only if all pages of the class are
  -- full and the page manager has no page.
  pub kmalloc-Served :
      (k size : ℕ) (s : State P) (g : Ghost) (given : List ℕ)
      → InOrder alloc_pages page_base nbase offset supplier s g given
      → 0 < size
      → size ≤ 2048
      → length (g.lists (size_to_index size)) < k
      → Result k size s g
  kmalloc-Served k size s g given io pos small fuel =
      let i = size_to_index size in
      let less = low k size s g given io pos small in
      let (found, run, what) =
        find_slab-Outcome {Q = λ sp. g.class sp ≡ i} k (s.caches i).pages (g.lists i) s
          (io.valid.chains i (omega (arith, less))) (io.valid.classes i (omega (arith, less)))
          fuel in
      elim what [
        | inr (some_page, free, class) ↦
            from_slab k size s g given io pos small found run some_page free class
        | inl (none_found, full) ↦
            let run' = rw none_found at run in
            let (pg, pmm, got, page) = supplier.supply s.pmm given io.kept in
            elim page [
              | inl (no_page, kept) ↦
                  from_none k size s g given io pos small pmm run' full (rw no_page at got) kept
              | inr (some_page, above, below, new, kept) ↦
                  from_page k size s g given io pos small pg pmm run' got some_page above below new
                    kept
            ]
      ]
