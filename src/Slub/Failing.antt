-- ===== src/Slub/Failing.antt =====
-- What `slub_check` meets: its first test asks for an object of 4096 bytes.
use lab.Base.{
  ℕ, zero, suc, ◌+◌, ◌*◌, ◌/◌, ◌^◌, u32, ◌≤◌, ◌<◌, ◌≡◌, ◌≢◌, ◌⊎◌, inl, inr, false, refl, sym, ◌∙◌,
  List, [], ◌∷◌, All, All-map, ◌==◌, le→leb, ne→==, Run, done, panicked, arith,
}
use mathlib.Core.Path.{subst}
use native.Mathlib.Decide.{dec_lt}
use lab.Base.Program.{Program, bind-done, bind-panicked, then-done}
use lab.Buddy.Lists.{pow_pos, pow_double}
use lab.Buddy.Order.{pow_mono}
use lab.Slub.{State, put, ncache, size_to_index, find_slab, kmalloc, slub_init}
use lab.Slub.Areas.{free-Outside, write-IsValid}
use lab.Slub.Caches.{eight}
use lab.Slub.Chain.{put_there}
use lab.Slub.Check.{store_int, write_int, allocate_some, alloc_classes, slub_check}
use lab.Slub.Classes.{size_to_index-IsClass}
use lab.Slub.Objects.{page_of, class_size}
use lab.Slub.Order.{InOrder, empty_slabs, slub_init-InOrder}
use lab.Slub.Paths.{kmalloc_none}
use lab.Slub.Reuse.{kmalloc_whole_page, whole_page}
use lab.Slub.Serve.{kmalloc-Served}
use lab.Slub.Supply.{Supplier, Mapped, page_address-nonzero}
use lab.Slub.Use.{Outside}
use lab.Slub.Valid.{Ghost, IsHeld}

-- The size of a class belongs to the class.
size_to_index-class : (i : ℕ) → i < 10 → size_to_index (class_size i) ≡ i
size_to_index-class i h =
    let c = size_to_index-IsClass (class_size i) (omega (arith, pow_mono i 9 (omega arith))) in
    elim (dec_lt i (size_to_index (class_size i))) [
      | yes less ↦ absurd (omega (arith, c.least i less))
      | no more ↦ elim (dec_lt (size_to_index (class_size i)) i) [
        | yes less ↦ absurd (
            omega (
              arith,
              c.enough,
              pow_mono (suc (size_to_index (class_size i))) i less,
              pow_double (size_to_index (class_size i)),
              pow_pos (size_to_index (class_size i)),
            ))
        | no same ↦ omega arith
      ]
    ]

module _ {P : Type 0} (alloc_pages : ℕ → P → Run (ℕ × P)) (page_base nbase offset k : ℕ)
    (supplier : Supplier alloc_pages page_base)
    (mapped : Mapped nbase offset supplier.page_count) where
  -- In order, and without a page in the classes from i on.
  record Clean (i : ℕ) (s : State P) (g : Ghost) (given : List ℕ) : Type 0 where
    order : InOrder alloc_pages page_base nbase offset supplier s g given
    none : (j : ℕ) → i ≤ j → j < 10 → g.lists j ≡ []

  store-InOrder :
      (p v : ℕ) (s : State P) (g : Ghost) (given : List ℕ)
      → InOrder alloc_pages page_base nbase offset supplier s g given
      → IsHeld g p
      → InOrder alloc_pages page_base nbase offset supplier (store_int p v s) g given
  unfolding store_int
  store-InOrder p v s g given io held = record {
    valid =
        write-IsValid s g (put p (s.next p / 2 ^ 32 * 2 ^ 32 + u32 v) s.next)
          (λ q h.
            All-map (λ x. Outside x (record { ptr = p; size = 1 })) _ (g.free q)
              (λ x out. put_there p x _ s.next (λ e. inside x out e))
              (free-Outside s g q (record { ptr = p; size = 1 }) io.valid h held
                (omega (arith, pow_pos (g.class (page_of p))))))
          io.valid;
    kept = io.kept;
    fresh = io.fresh;
  }
    where
      inside : (x : ℕ) → Outside x (record { ptr = p; size = 1 }) → x ≢ p
      inside x (inl h) e = absurd (omega arith)
      inside x (inr h) e = absurd (omega arith)

  abbrev allocate : ℕ → Program (State P) ℕ
  allocate size = kmalloc alloc_pages page_base nbase offset (suc (suc k)) size

  -- No object of the last class can be had.
  last_class :
      (s : State P) (g : Ghost) (given : List ℕ)
      → Clean 9 s g given
      → allocate_some alloc_pages page_base nbase offset (suc (suc k)) 4096 s ≡ panicked
  unfolding find_slab
  last_class s g given c =
      let chain = c.order.valid.chains 9 (omega arith) in
      let no_page : (s.caches 9).pages ≡ 0 = rw (c.none 9 (omega arith) (omega arith)) at chain in
      let index = whole_page alloc_pages page_base nbase offset 4096 (omega arith) (omega arith) in
      let (pg, pmm, got, page) = supplier.supply s.pmm given c.order.kept in
      elim page [
        | inl (none, kept) ↦
            let got' = rw none at got in
            let run =
              kmalloc_none alloc_pages page_base nbase offset (suc (suc k)) 4096 s pmm (omega arith)
                (omega arith) (rw (index, no_page) refl) got' in
            bind-done (allocate 4096) _ run
        | inr (some_page, above, below, _, _) ↦
            let run =
              kmalloc_whole_page alloc_pages page_base nbase offset (suc k) 4096 pg pmm s
                (omega arith) (omega arith) no_page (c.order.valid.sizes 9 (omega arith)) got
                some_page
                (page_address-nonzero alloc_pages page_base nbase offset supplier.page_count mapped
                  pg above below) in
            bind-panicked (allocate 4096) _ run
      ]

  -- An object of a class below the last one is written, or there is none.
  Allocated : ℕ → ℕ → State P → Type 0
  Allocated i size s =
      (allocate_some alloc_pages page_base nbase offset (suc (suc k)) size s ≡ panicked)
      ⊎ ((p : ℕ) × (s' : State P) × (g' : Ghost) × (given' : List ℕ) × (allocate_some alloc_pages
              page_base nbase offset (suc (suc k)) size s
            ≡ done (p, s'))
          × (write_int p 0xDEADBEEF s' ≡ done (tt, store_int p 0xDEADBEEF s'))
          × Clean (i + 1) (store_int p 0xDEADBEEF s') g' given')

  other_class :
      (i : ℕ) (s : State P) (g : Ghost) (given : List ℕ)
      → i < 9
      → Clean i s g given
      → Allocated i (class_size i) s
  unfolding Allocated
  other_class i s g given low c =
      let class = size_to_index-class i (omega arith) in
      let empty : g.lists (size_to_index (class_size i)) ≡ [] =
        rw class (c.none i (omega arith) (omega arith)) in
      let (p, s', g', given', run, served) =
        kmalloc-Served alloc_pages page_base nbase offset supplier mapped (suc (suc k))
          (class_size i) s g given c.order (omega (arith, pow_pos i))
          (omega (arith, pow_mono i 8 (omega arith))) (rw empty (omega arith)) in
      elim served.result [
        | inl (none, _, _, _) ↦ inl (bind-done (allocate (class_size i)) _ run ∙ rw none refl)
        | inr handed ↦
            let some : (p == 0) ≡ false = ne→== p 0 handed.nonzero in
            inr (
              p,
              s',
              g',
              given',
              bind-done (allocate (class_size i)) _ run ∙ rw some refl,
              rw some refl,
              record {
                order =
                    store-InOrder p 0xDEADBEEF s' g' given' served.order
                      (subst (All (IsHeld g')) handed.held served.order.valid.objects).0;
                none = λ j lo hi.
                    handed.others j (λ z. absurd (omega (arith, class)))
                    ∙ c.none j (omega arith) hi;
              },
            )
      ]

  alloc_classes-panics :
      (n i : ℕ) (ptrs : List ℕ) (s : State P) (g : Ghost) (given : List ℕ)
      → suc n + i ≡ 10
      → Clean i s g given
      → alloc_classes alloc_pages page_base nbase offset (suc (suc k)) (suc n) i ptrs s ≡ panicked
  unfolding alloc_classes Allocated
  alloc_classes-panics zero i ptrs s g given e c =
      let nine : i ≡ 9 = omega arith in
      bind-panicked (allocate_some alloc_pages page_base nbase offset (suc (suc k)) (2 ^ (3 + i))) _
        (rw nine (last_class s g given (rw nine at c)))
  alloc_classes-panics (suc n) i ptrs s g given e c =
      let first = allocate_some alloc_pages page_base nbase offset (suc (suc k)) (2 ^ (3 + i)) in
      elim (subst (λ size. Allocated i size s) (sym (eight i))
        (other_class i s g given (omega arith) c)) [
          | inl none ↦ bind-panicked first _ none
          | inr (p, s', g', given', run, stored, c') ↦
              bind-done first _ run
              ∙ rw (le→leb 4 (2 ^ (3 + i)) (omega (arith, eight i, pow_pos i))) (
                  then-done (write_int p 0xDEADBEEF) _ stored (
                    alloc_classes-panics n (i + 1) (p ∷ ptrs) (store_int p 0xDEADBEEF s') g' given'
                      (omega arith) c'))
        ]

  -- Over any page manager that gives pages of its own only, and none twice, whose frames lie above
  -- address 0 and have virtual addresses of 64 bits that are multiples of the page size, and given
  -- two rounds or more for the walks over the slabs: after slub_init the first loop of slub_check,
  -- which asks for an object of each size from 8 to 4096 bytes, panics, and so does slub_check.
  pub slub_check-panics :
      (s : State P) (given : List ℕ)
      → supplier.Keeps s.pmm given
      → (alloc_classes alloc_pages page_base nbase offset (suc (suc k)) ncache 0 [] (slub_init s)
          ≡ panicked)
        × (slub_check alloc_pages page_base nbase offset (suc (suc k)) (slub_init s) ≡ panicked)
  unfolding slub_check
  slub_check-panics s given kept =
      let first =
        alloc_classes-panics 9 0 [] (slub_init s) (empty_slabs) given (omega arith) (record {
          order = slub_init-InOrder alloc_pages page_base nbase offset supplier s given kept;
          none = λ j lo hi. refl;
        }) in
      (
        first,
        bind-panicked (alloc_classes alloc_pages page_base nbase offset (suc (suc k)) ncache 0 []) _
            first,
      )
