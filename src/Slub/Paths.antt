-- ===== src/Slub/Paths.antt =====
-- The three ways of `kmalloc` of kern/mm/slub.c for sizes up to 2048: a slab with a free object, a new
-- slab, and no page.
use lab.Base.{ℕ, ◌≤◌, ◌<◌, ◌≡◌, ◌≢◌, refl, le→ltb, ne→==, Run, done, arith}
use lab.Slub.{
  State, page_size, find_slab, take_object, size_to_index, kmalloc, kmalloc_object, alloc_slab_page,
  page_address,
}
use lab.Slub.Page.{with_page}
use lab.Slub.Page.{with_page}

module _ {P : Type 0} (alloc_pages : ℕ → P → Run (ℕ × P)) (page_base nbase offset : ℕ) where
  pub kmalloc_found :
      (k size sp : ℕ) (s : State P)
      → 0 < size
      → size ≤ 2048
      → find_slab k (s.caches (size_to_index size)).pages s ≡ done sp
      → sp ≢ 0
      → kmalloc alloc_pages page_base nbase offset k size s ≡ take_object sp s
  unfolding kmalloc kmalloc_object
  kmalloc_found k size sp s pos small found ne =
      rw
        (
          ne→== size 0 (λ e. absurd (omega arith)),
          le→ltb page_size size (omega arith),
          found,
          ne→== sp 0 ne,
        )
        (rw (ne→== sp 0 ne) refl)

  pub kmalloc_none :
      (k size : ℕ) (s : State P) (pmm : P)
      → 0 < size
      → size ≤ page_size
      → find_slab k (s.caches (size_to_index size)).pages s ≡ done 0
      → alloc_pages 1 s.pmm ≡ done (0, pmm)
      → kmalloc alloc_pages page_base nbase offset k size s ≡ done (0, record s { pmm = pmm })
  unfolding kmalloc kmalloc_object alloc_slab_page
  kmalloc_none k size s pmm pos small full got =
      rw (ne→== size 0 (λ e. absurd (omega arith)), le→ltb page_size size (omega arith), full, got)
        refl

  pub kmalloc_page :
      (k size pg : ℕ) (s : State P) (pmm : P)
      → let sp = page_address alloc_pages page_base nbase offset pg in
        0 < size
        → size ≤ 2048
        → find_slab k (s.caches (size_to_index size)).pages s ≡ done 0
        → alloc_pages 1 s.pmm ≡ done (pg, pmm)
        → 0 < pg
        → 0 < sp
        → kmalloc alloc_pages page_base nbase offset k size s
          ≡ take_object sp (with_page (size_to_index size) sp (record s { pmm = pmm }))
  unfolding kmalloc kmalloc_object alloc_slab_page
  kmalloc_page k size pg s pmm pos small full got some_page above =
      let sp = page_address alloc_pages page_base nbase offset pg in
      rw
        (
          ne→== size 0 (λ e. absurd (omega arith)),
          le→ltb page_size size (omega arith),
          full,
          got,
          ne→== pg 0 (λ e. absurd (omega arith)),
          ne→== sp 0 (λ e. absurd (omega arith)),
          ne→== sp 0 (λ e. absurd (omega arith)),
        )
        refl
