-- ===== src/Slub/Sound.antt =====
-- Whatever its users do, the slab allocator gives areas that no one else has.
use mathlib.Core.Path.{subst}
use lab.Base.{
  ℕ, suc, ◌+◌, ◌≤◌, ◌<◌, ◌≡◌, ◌≢◌, inl, inr, refl, sym, ap, ◌∙◌, List, [], ◌∷◌, ◌++◌, length, All,
  All-map, All-both, All-swap, All-remove, Distinct, Run, done, arith,
}
use lab.Slub.{State, slub_init, kmalloc, kfree, size_to_index}
use lab.Slub.Classes.{size_to_index-IsClass}
use lab.Slub.Objects.{page_of}
use lab.Slub.Valid.{Ghost, IsHeld}
use lab.Slub.Freed.{give_back, kfree-IsValid}
use lab.Slub.Fuel.{kmalloc_more}
use lab.Slub.Order.{InOrder, empty_slabs, slub_init-InOrder}
use lab.Slub.Serve.{kmalloc-Served}
use lab.Slub.Supply.{Supplier, Mapped}
use lab.Slub.Use.{
  Area, ptrs, Separate, Outside, Step, allocate, refuse, release, write, Reach, start, later,
}
use lab.Slub.Areas.{Fits, write-IsValid, ptrs-append, All-ptrs, areas-Separate, free-Outside}
use lab.Slub.Caches.{kfree-pmm}

module _ {P : Type 0} (alloc_pages : ℕ → P → Run (ℕ × P)) (page_base nbase offset : ℕ)
    (supplier : Supplier alloc_pages page_base)
    (mapped : Mapped nbase offset supplier.page_count) where
  abbrev pub Keeping : State P → Ghost → List ℕ → Type 0
  Keeping = InOrder alloc_pages page_base nbase offset supplier

  -- What is known of a state and the areas in use.
  pub record Sound (s : State P) (areas : List Area) : Type 0 where
    pub ghost : Ghost
    pub given : List ℕ
    pub order : Keeping s ghost given
    pub held : ghost.held ≡ ptrs areas
    pub fits : All (Fits ghost) areas

  area-IsHeld :
      (s : State P) (areas : List Area) (x : Sound s areas) → All (IsHeld x.ghost) (ptrs areas)
  area-IsHeld s areas x = subst (λ ps. All (IsHeld x.ghost) ps) x.held x.order.valid.objects

  area-Fits :
      (s : State P) (areas : List Area) (x : Sound s areas)
      → All (λ a. IsHeld x.ghost a.ptr × Fits x.ghost a) areas
  area-Fits s areas x =
      All-both _ _ areas (All-ptrs (IsHeld x.ghost) areas (area-IsHeld s areas x)) x.fits

  start-Sound : (s : State P) (given : List ℕ) → supplier.Keeps s.pmm given → Sound (slub_init s) []
  start-Sound s given kept = record {
    ghost = empty_slabs;
    given = given;
    order = slub_init-InOrder alloc_pages page_base nbase offset supplier s given kept;
    held = refl;
    fits = tt;
  }

  release-Sound :
      (s : State P) (pre post : List Area) (a : Area)
      → Sound s (pre ++ a ∷ post)
      → Sound (kfree a.ptr s) (pre ++ post)
  release-Sound s pre post a x =
      let had : x.ghost.held ≡ ptrs pre ++ a.ptr ∷ ptrs post =
        x.held ∙ ptrs-append pre (a ∷ post) in
      record {
        ghost = give_back a.ptr (ptrs pre ++ ptrs post) x.ghost;
        given = x.given;
        order = record {
          valid = kfree-IsValid s x.ghost x.order.valid a.ptr (ptrs pre) (ptrs post) had;
          kept = rw (kfree-pmm a.ptr s) x.order.kept;
          fresh = x.order.fresh;
        };
        held = sym (ptrs-append pre post);
        fits = All-remove (Fits x.ghost) pre post a x.fits;
      }

  write-Sound :
      (s : State P) (areas : List Area) (next' : ℕ → ℕ)
      → ((x : ℕ) → All (Outside x) areas → next' x ≡ s.next x)
      → Sound s areas
      → Sound (record s { next = next' }) areas
  write-Sound s areas next' same x = record {
    ghost = x.ghost;
    given = x.given;
    order = record {
      valid =
          write-IsValid s x.ghost next'
            (λ q h.
              All-map (λ y. All (Outside y) areas) (λ y. next' y ≡ s.next y) (x.ghost.free q) same
                (All-swap (λ a y. Outside y a) areas (x.ghost.free q)
                  (All-map _ _ areas (λ a b. free-Outside s x.ghost q a x.order.valid h b.0 b.1)
                    (area-Fits s areas x))))
            x.order.valid;
      kept = x.order.kept;
      fresh = x.order.fresh;
    };
    held = x.held;
    fits = x.fits;
  }

  -- What a call of `kmalloc` leaves: the areas, or one more.
  abbrev Gives : ℕ → List Area → ℕ × State P → Type 0
  Gives size areas r =
      ((r.0 ≡ 0) → Sound r.1 areas)
      × ((r.0 ≢ 0) → Sound r.1 (record { ptr = r.0; size = size } ∷ areas))

  kmalloc-Sound :
      (size : ℕ) (s : State P) (areas : List Area)
      → 0 < size
      → size ≤ 2048
      → Sound s areas
      → (k : ℕ) × (r : ℕ × State P) × (kmalloc alloc_pages page_base nbase offset k size s ≡ done r)
        × Gives size areas r
  kmalloc-Sound size s areas pos small x =
      let g = x.ghost in
      let (ptr, s', g', given', run, served) =
        kmalloc-Served alloc_pages page_base nbase offset supplier mapped
          (suc (length (g.lists (size_to_index size)))) size s g x.given x.order pos small
          (omega arith) in
      (
        suc (length (g.lists (size_to_index size))),
        (ptr, s'),
        run,
        elim served.result [
          | inl (none_given, same, full, nothing) ↦ (
            (λ z. record {
              ghost = g';
              given = given';
              order = served.order;
              held = rw same x.held;
              fits = rw same x.fits;
            }),
            (λ ne. absurd (ne none_given)),
          )
          | inr handed ↦ (
            (λ z. absurd (handed.nonzero z)),
            (λ ne. record {
              ghost = g';
              given = given';
              order = served.order;
              held = handed.held ∙ ap (λ ps. ptr ∷ ps) x.held;
              fits = (
                rw handed.class (size_to_index-IsClass size (omega arith)).enough,
                All-map (λ a. IsHeld g a.ptr × Fits g a) (Fits g') areas
                    (λ a h. rw (handed.same (page_of a.ptr) h.0.class) h.1) (area-Fits s areas x),
              );
            }),
          )
        ],
      )

  -- It leaves the same with any number of rounds that is enough.
  kmalloc-Gives :
      (k size : ℕ) (s : State P) (areas : List Area) (r : ℕ × State P)
      → 0 < size
      → size ≤ 2048
      → kmalloc alloc_pages page_base nbase offset k size s ≡ done r
      → Sound s areas
      → Gives size areas r
  kmalloc-Gives k size s areas r pos small run x =
      let (n, r', run', gives) = kmalloc-Sound size s areas pos small x in
      let more = kmalloc_more alloc_pages page_base nbase offset in
      let one = more k (k + n) size s r (omega arith) (omega arith) run in
      let two = more n (k + n) size s r' (omega arith) (omega arith) run' in
      let e : r' ≡ r = cc in subst (Gives size areas) e gives

  Step-Sound :
      {s s' : State P} {areas areas' : List Area}
      → Step alloc_pages page_base nbase offset s areas s' areas'
      → Sound s areas
      → Sound s' areas'
  Step-Sound {s} {areas} (allocate k size ptr pos small run ne) x =
      (kmalloc-Gives k size s areas (ptr, _) pos small run x).1 ne
  Step-Sound {s} {areas} (refuse k size pos small run) x =
      (kmalloc-Gives k size s areas (0, _) pos small run x).0 refl
  Step-Sound {s} (release pre post a e) x = release-Sound s pre post a (rw e at x)
  Step-Sound {s} {areas} (write next' same) x = write-Sound s areas next' same x

  pub Reach-Sound :
      {s0 s : State P} {areas : List Area} (given : List ℕ)
      → supplier.Keeps s0.pmm given
      → Reach alloc_pages page_base nbase offset s0 s areas
      → Sound s areas
  Reach-Sound {s0} given kept start = start-Sound s0 given kept
  Reach-Sound given kept (later reach step) = Step-Sound step (Reach-Sound given kept reach)

  -- Areas that `kmalloc` gave for sizes up to 2048 and that were not given back never overlap.
  pub Reach-Separate :
      {s0 s : State P} {areas : List Area} (given : List ℕ)
      → supplier.Keeps s0.pmm given
      → Reach alloc_pages page_base nbase offset s0 s areas
      → Separate areas
  Reach-Separate {s = s} {areas} given kept reach =
      let x = Reach-Sound given kept reach in
      areas-Separate x.ghost areas (area-IsHeld s areas x)
        (subst Distinct x.held x.order.valid.distinct) x.fits

  -- With enough rounds `kmalloc` ends.
  pub Reach-kmalloc :
      {s0 s : State P} {areas : List Area} (given : List ℕ) (size : ℕ)
      → supplier.Keeps s0.pmm given
      → Reach alloc_pages page_base nbase offset s0 s areas
      → 0 < size
      → size ≤ 2048
      → (k : ℕ) × (r : ℕ × State P) × (kmalloc alloc_pages page_base nbase offset k size s ≡ done r)
  Reach-kmalloc {s = s} {areas} given size kept reach pos small =
      let (k, r, run, gives) =
        kmalloc-Sound size s areas pos small (Reach-Sound given kept reach) in
      (k, r, run)
