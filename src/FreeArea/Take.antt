-- ===== src/FreeArea/Take.antt =====
-- Taking the first pages of a free block.
use lab.Base.{
  ℕ, ◌+◌, ◌-◌, ◌≤◌, ◌<◌, ◌≡◌, refl, inl, inr, List, ◌∷◌, ◌++◌, ltb, lt→ltb, All, All-append,
  All-left, All-right, All-mid, NotIn, Distinct-remove, Bool-cases, arith,
}
use lab.LinkList.{list_del}
use lab.LinkList.Ring.{Ring, Ring-cut}
use lab.LinkList.Laws.{list_add-Ring, list_del-Ring}
use lab.FreeArea.{State, put, take_pages}
use lab.FreeArea.Blocks.{
  Block, block, bases, bases-append, total, total-append, total-leave, Ordered, Ordered-leave,
  Ordered-right, leave,
}
use lab.FreeArea.Holds.{
  IsFree, Holds, Allocated, Same, IsFree-frame', Away-after, Away-before, Ordered-left,
  Ordered-Distinct,
}

module _ {s : State} (n : ℕ) (pre : List Block) (b : Block) (post : List Block)
    (v : Holds s (pre ++ b ∷ post)) (pos : 0 < n) (fits : n ≤ b.size) where
  s' : State
  s' = take_pages b.base n s

  cut-Ring : Ring s.links 0 (bases pre ++ b.base ∷ bases post)
  cut-Ring = rw (bases-append pre (b ∷ post)) at (v.ring)

  block-IsFree : IsFree s.pages b
  block-IsFree = All-mid _ pre post v.free

  after : Ordered b.base (b ∷ post)
  after = let o = Ordered-right 1 pre (b ∷ post) v.ordered in (omega arith, o.1, o.2)

  size-le-total : b.size ≤ s.nr_free
  size-le-total = omega (arith, v.count, total-append pre (b ∷ post))

  new-Ordered : Ordered 1 (pre ++ leave n b post)
  new-Ordered = Ordered-leave 1 n pre post b fits v.ordered

  size_eq : (s.pages b.base).property ≡ b.size
  size_eq = block-IsFree.size

  deleted : Ring (list_del b.base s.links) 0 (bases pre ++ bases post)
  deleted = list_del-Ring s.links b.base 0 (bases pre) (bases post) cut-Ring

  rest_NotIn : n < b.size → NotIn (b.base + n) (0 ∷ bases pre ++ bases post)
  rest_NotIn less =
      let o : Ordered 1 (pre ++ block (b.base + n) (b.size - n) ∷ post) =
        rw (lt→ltb n b.size less) at new-Ordered in
      let d = Ordered-Distinct 1 (pre ++ block (b.base + n) (b.size - n) ∷ post) o in
      let d' = rw (bases-append pre (block (b.base + n) (b.size - n) ∷ post)) at d in
      (omega arith, (Distinct-remove (bases pre) (bases post) (b.base + n) d').0)

  take-Ring : Ring s'.links 0 (bases (pre ++ leave n b post))
  unfolding s' take_pages
  take-Ring =
      let (_, e, _) = Ring-cut (bases pre) (b.base ∷ bases post) cut-Ring in
      elim (Bool-cases (ltb n b.size)) [
        | inl less ↦
            rw (size_eq, less, bases-append pre (block (b.base + n) (b.size - n) ∷ post), e.1)
              (list_add-Ring (list_del b.base s.links) (b.base + n) 0 (bases pre) (bases post)
                (rest_NotIn (ground arith)) deleted)
        | inr all ↦ rw (size_eq, all, bases-append pre post) deleted
      ]

  take-pages_Same : Same b.base (b.base + b.size) s.pages s'.pages
  unfolding s' take_pages put
  take-pages_Same q out = ground (arith, size_eq)

  take-post-IsFree : All (IsFree s'.pages) post
  take-post-IsFree =
      IsFree-frame' (b.base + b.size) post take-pages_Same after.2
        (Away-after b.base (b.base + b.size) post after.2) (All-right _ pre (b ∷ post) v.free).1

  take-rest-IsFree : n < b.size → IsFree s'.pages (block (b.base + n) (b.size - n))
  unfolding s' take_pages put
  take-rest-IsFree less = record {
    size = ground (arith, size_eq, size-le-total, v.count, v.small);
    head = ground (arith, size_eq);
    usable = ground (arith, size_eq, block-IsFree.inner (b.base + n));
    inner = λ q lo hi. ground (arith, size_eq, block-IsFree.inner q);
  }

  take-leave-IsFree : All (IsFree s'.pages) (leave n b post)
  take-leave-IsFree = elim (Bool-cases (ltb n b.size)) [
    | inl less ↦ rw less (take-rest-IsFree (ground arith), take-post-IsFree)
    | inr all ↦ rw all take-post-IsFree
  ]

  take-pre-IsFree : All (IsFree s'.pages) pre
  take-pre-IsFree =
      IsFree-frame' 1 pre take-pages_Same (Ordered-left 1 pre (b ∷ post) v.ordered)
        (Away-before 1 b.base (b.base + b.size) pre b post refl v.ordered)
        (All-left _ pre (b ∷ post) v.free)

  take-count : s'.nr_free ≡ total (pre ++ leave n b post)
  unfolding s' take_pages
  take-count = ground (
    arith,
    v.count,
    v.small,
    total-append pre (b ∷ post),
    total-append pre (leave n b post),
    total-leave n b post fits,
  )

  pub take_pages-Holds : Holds (take_pages b.base n s) (pre ++ leave n b post)
  unfolding s'
  take_pages-Holds = record {
    ring = take-Ring;
    ordered = new-Ordered;
    free = All-append _ pre (leave n b post) take-pre-IsFree take-leave-IsFree;
    count = take-count;
    small = omega (
      arith,
      v.small,
      total-append pre (b ∷ post),
      total-append pre (leave n b post),
      total-leave n b post fits,
    );
  }

  -- The pages taken are marked as allocated.
  pub take_pages-Allocated : Allocated (take_pages b.base n s).pages b.base n
  unfolding take_pages put
  take_pages-Allocated q lo hi = ground (arith, block-IsFree.inner q, block-IsFree.usable, size_eq)

  -- The descriptors outside of the block are as they were.
  pub take_pages-Same : Same b.base (b.base + b.size) s.pages (take_pages b.base n s).pages
  unfolding s'
  take_pages-Same = take-pages_Same
