-- ===== src/Slub/Supply.antt =====
-- What the slab allocator relies on of the page manager.
use lab.Base.{
  ℕ, ◌+◌, ◌-◌, ◌*◌, ◌%◌, ◌^◌, ◌≤◌, ◌<◌, ◌≡◌, ◌⊎◌, List, ◌∷◌, NotIn, Run, done, sub64, arith,
}
use lab.Slub.{page_size, page_address}
use lab.Slub.Objects.{page_of}

-- A page manager that keeps account of the pages it gave: a call for one page ends, and gives either
-- no page or one of its `page_count` pages that it has not given.
pub record Supplier {P : Type 0} (alloc_pages : ℕ → P → Run (ℕ × P)) (page_base : ℕ) : Type 1 where
  pub page_count : ℕ
  pub Keeps : P → List ℕ → Type 0
  pub supply :
      (pmm : P) (given : List ℕ)
      → Keeps pmm given
      → (pg : ℕ) × (pmm' : P) × (alloc_pages 1 pmm ≡ done (pg, pmm'))
        × (((pg ≡ 0) × Keeps pmm' given)
            ⊎ ((0 < pg)
                × (page_base ≤ pg)
                × (pg < page_base + page_count)
                × NotIn pg given
                × Keeps pmm' (pg ∷ given)))

-- Where the pages lie: the first frame is not at address 0, virtual addresses begin with a page, and
-- all frames of the manager have virtual addresses of 64 bits.
pub record Mapped (nbase offset page_count : ℕ) : Type 0 where
  pub above_zero : 0 < nbase
  pub whole : offset % page_size ≡ 0
  pub fits : (nbase + page_count) * page_size + offset ≤ 2 ^ 64

module _ {P : Type 0} (alloc_pages : ℕ → P → Run (ℕ × P)) (page_base nbase offset count : ℕ)
    (mapped : Mapped nbase offset count) where
  abbrev address : ℕ → ℕ
  address = page_address alloc_pages page_base nbase offset

  -- The address of a page of the manager does not wrap around.
  page_address-plain :
      (pg : ℕ)
      → page_base ≤ pg
      → pg < page_base + count
      → address pg ≡ (pg - page_base + nbase) * page_size + offset
  unfolding page_address
  page_address-plain pg lo hi =
      let bound = mapped.fits in
      let index : sub64 pg page_base ≡ pg - page_base = omega (arith, bound) in
      rw index (omega (arith, bound))

  pub page_address-whole : (pg : ℕ) → page_of (address pg) ≡ address pg
  unfolding page_address
  page_address-whole pg = omega (arith, mapped.whole)

  pub page_address-nonzero : (pg : ℕ) → page_base ≤ pg → pg < page_base + count → 0 < address pg
  page_address-nonzero pg lo hi = omega (arith, page_address-plain pg lo hi, mapped.above_zero)

  pub page_address-injective :
      (p q : ℕ)
      → page_base ≤ p
      → page_base ≤ q
      → p < page_base + count
      → q < page_base + count
      → address p ≡ address q
      → p ≡ q
  page_address-injective p q lo lo' hi hi' e =
      omega (arith, page_address-plain p lo hi, page_address-plain q lo' hi', e)
