-- ===== src/Slub/Backing.antt =====
-- The page managers as suppliers of the slab allocator: what they give was free and is not afterwards.
use lab.Base.{
  ℕ, ◌+◌, ◌^◌, ◌≤◌, ◌<◌, ◌≡◌, ◌≢◌, ◌⊎◌, inl, inr, refl, ap, List, ◌∷◌, All, All-map, NotIn, arith,
}
use lab.Buddy
use lab.Buddy.Alloc
use lab.Buddy.Alloc.{empty_request, too_many, taken, buddy_alloc_pages-Outcome}
use lab.Buddy.Holds
use lab.Buddy.Lists.{Lists, cover, holds_page, pow_pos}
use lab.Slub.Supply.{Supplier}
use lab.Pmm
use lab.Pmm.Managers.{buddy_pmm_manager}

-- The free lists are in order and have pages among the `count` from `page_base` on, none of them given.
pub record Stocked (page_base count : ℕ) (s : Buddy.State) (given : List ℕ) : Type 0 where
  pub fl : Lists
  pub holds : Holds.Holds s fl
  pub small : s.nr_free ≤ 2 ^ 31
  pub above : (q : ℕ) → 0 < cover fl q → page_base ≤ q
  pub below : (q : ℕ) → 0 < cover fl q → q < page_base + count
  pub gone : All (λ p. cover fl p ≡ 0) given

module _ (page_base count : ℕ) (s : Buddy.State) (given : List ℕ)
    (x : Stocked page_base count s given) where
  -- What a call for one page gives.
  abbrev pub Given : ℕ × Buddy.State → Type 0
  Given r =
      ((r.0 ≡ 0) × Stocked page_base count r.1 given)
      ⊎ ((0 < r.0)
          × (page_base ≤ r.0)
          × (r.0 < page_base + count)
          × NotIn r.0 given
          × Stocked page_base count r.1 (r.0 ∷ given))

  pub Outcome-Given : {r : ℕ × Buddy.State} → Alloc.Outcome 1 s x.fl r → Given r
  Outcome-Given (empty_request e) = inl (refl, x)
  Outcome-Given (too_many h) = inl (refl, x)
  Outcome-Given (Alloc.no_block need is none) = inl (refl, x)
  Outcome-Given (taken {s'} blk need fl' is above v covers fewer) =
      let pos = pow_pos need in
      let own : holds_page blk need blk ≡ 1 = ground arith in
      let here = covers blk in
      inr (
        omega arith,
        x.above blk (omega (arith, own, here)),
        x.below blk (omega (arith, own, here)),
        All-map (λ p. cover x.fl p ≡ 0) (λ p. blk ≢ p) given
            (λ p none e.
              let same : cover x.fl blk ≡ cover x.fl p = ap (cover x.fl) e in
              omega (arith, own, here))
            x.gone,
        record {
          fl = fl';
          holds = v;
          small = omega (arith, x.small, fewer);
          above = λ q h. x.above q (omega (arith, covers q));
          below = λ q h. x.below q (omega (arith, covers q));
          gone = (
            omega (arith, own, here, x.holds.disjoint blk),
            All-map (λ p. cover x.fl p ≡ 0) (λ p. cover fl' p ≡ 0) given
                (λ p none. omega (arith, covers p)) x.gone,
          );
        },
      )

-- The buddy manager, which `init_pmm_manager` selects.
unfoldable pub buddy_supplier :
    (page_base count : ℕ) → Supplier (Pmm.alloc_pages buddy_pmm_manager) page_base
unfolding Pmm.alloc_pages
buddy_supplier page_base count = record {
  page_count = count;
  Keeps = Stocked page_base count;
  supply = λ s given x.
      let (r, run, out) = buddy_alloc_pages-Outcome 1 x.holds x.small in
      (r.0, r.1, run, Outcome-Given page_base count s given x out);
}
