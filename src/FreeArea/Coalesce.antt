-- ===== src/FreeArea/Coalesce.antt =====
-- What giving pages back does to the set of free pages.
use lab.Base.{ℕ, ◌+◌, ◌^◌, ◌<◌, ◌≡◌, ◌||◌, List, All, done, arith}
use lab.FreeArea.{State, free_pages}
use lab.FreeArea.Blocks.{Block, total, inside, covered}
use lab.FreeArea.Holds.{Holds, Allocated, Away}
use lab.FreeArea.Free.{BelowLast, free_pages-Holds}
use lab.FreeArea.Spec.{
  free_block, Separated, free_block-covered, free_block-total, free_block-Separated,
}

-- The pages of `b` are free again, and nothing else has changed.
pub record Returned (b : Block) (s : State) (bs : List Block) (s' : State) : Type 0 where
  pub left : List Block
  pub holds : Holds s' left
  pub covers : (q : ℕ) → covered q left ≡ (covered q bs || inside q b)
  pub count : s'.nr_free ≡ s.nr_free + b.size
  pub separated : Separated 0 left

-- On a free list on which no two blocks touch, a block of at least one page, at an address other
-- than 0, is given back: its pages are allocated and overlap no free block, it does not stand
-- behind every block of a list that has one, and the free pages with it stay below 2^32.
-- free_pages ends without a failed assertion, exactly the pages of the block become free in
-- addition, nr_free rises by their number, and again no two blocks of the list touch.
pub free_pages-Returned :
    {s : State} {bs : List Block} (b : Block)
    → Holds s bs
    → Separated 0 bs
    → 0 < b.base
    → 0 < b.size
    → All (Away b.base (b.base + b.size)) bs
    → BelowLast b.base bs
    → total bs + b.size < 2 ^ 32
    → Allocated s.pages b.base b.size
    → (s' : State) × (free_pages b.base b.size s ≡ done s') × Returned b s bs s'
free_pages-Returned {bs} b v sep low pos away below room al =
    let (s', e, h) = free_pages-Holds b v low pos away below room al in
    (
      s',
      e,
      record {
        left = free_block b bs;
        holds = h;
        covers = λ q. free_block-covered q b bs;
        count = omega (arith, h.count, v.count, free_block-total b bs);
        separated = free_block-Separated 0 b bs low pos sep away;
      },
    )
