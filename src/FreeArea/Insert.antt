-- ===== src/FreeArea/Insert.antt =====
-- Putting a block of pages on the free list.
use lab.Base.{
  ℕ, ◌+◌, ◌^◌, ◌<◌, ◌≡◌, refl, List, [], ◌∷◌, ◌++◌, append_assoc, length, length-append, All,
  All-append, All-left, All-right, NotIn, Distinct-remove, ◌∙◌, false, done, u32, arith,
}
use lab.LinkList.{Store, list_add, list_add_before, list_empty}
use lab.LinkList.Links.{Links}
use lab.LinkList.Ring.{Ring}
use lab.LinkList.Laws.{list_add-Ring, list_add_before-Ring, list_empty-Ring, is_nil}
use lab.FreeArea.{Page, State, put, set_page_property, set_property, insert, add_block}
use lab.FreeArea.Outcome.{length-le-total}
use lab.FreeArea.Blocks.{
  Block, bases, bases-append, length-bases, total, total-append, Ordered, Ordered-right,
}
use lab.FreeArea.Holds.{
  IsFree, Holds, Allocated, Same, IsFree-frame', Away-after, Away-before, Ordered-left,
  Ordered-Distinct,
}
use lab.FreeArea.Walk.{Before, insert_loop-Before}

-- The block does not come last in a list that has other blocks: `post` are the blocks behind it.
abbrev pub NotAtEnd : List Block → List Block → Type 0
NotAtEnd [] pre = pre ≡ []
NotAtEnd (c ∷ post) pre = Unit

pub Before-of_Ordered :
    (lo base : ℕ) (pre : List Block) (b : Block) (post : List Block)
    → 0 < lo
    → b.base ≡ base
    → Ordered lo (pre ++ b ∷ post)
    → All (Before base) (bases pre)
Before-of_Ordered lo base [] b post pos e o = tt
Before-of_Ordered lo base (a ∷ pre) b post pos e o =
    let after = Ordered-right (a.base + a.size) pre (b ∷ post) o.2 in
    (
      (omega arith, omega arith),
      Before-of_Ordered (a.base + a.size) base pre b post (omega arith) e o.2,
    )

pub Ordered-fresh :
    (pre : List Block) (b : Block) (post : List Block)
    → Ordered 1 (pre ++ b ∷ post)
    → NotIn b.base (0 ∷ bases pre ++ bases post)
Ordered-fresh pre b post o =
    let d = Ordered-Distinct 1 (pre ++ b ∷ post) o in
    let after = Ordered-right 1 pre (b ∷ post) o in
    (
      omega arith,
      (Distinct-remove (bases pre) (bases post) b.base (rw (bases-append pre (b ∷ post)) at d)).0,
    )

-- The loop puts the block at its place in address order, unless that is the end of the list.
pub insert-Ring :
    (fuel : ℕ) (pre : List Block) (b : Block) (post : List Block) (l : Store)
    → Ring l 0 (bases pre ++ bases post)
    → Ordered 1 (pre ++ b ∷ post)
    → NotAtEnd post pre
    → length (bases pre) < fuel
    → (l' : Store) × (insert fuel b.base l ≡ done l') × Ring l' 0 (bases (pre ++ b ∷ post))
unfolding insert
insert-Ring fuel [] b [] l r o n h = (
  list_add 0 b.base l,
  rw (list_empty-Ring l 0 [] r),
  list_add-Ring l b.base 0 [] [] (Ordered-fresh [] b [] o) r,
)
insert-Ring fuel (a ∷ pre) b [] l r o n h = cc
insert-Ring fuel pre b (c ∷ post) l r o n h =
    let nonempty : list_empty 0 l ≡ false = list_empty-Ring l 0 _ r ∙ is_nil-append (bases pre) in
    let links : Links l 0 (bases pre ++ c.base ∷ (bases post ++ 0 ∷ [])) =
      rw append_assoc at (r.links) in
    let after = Ordered-right 1 pre (b ∷ c ∷ post) o in
    (
      list_add_before c.base b.base l,
      rw (
        nonempty,
        insert_loop-Before fuel 0 b.base c.base (bases pre) _ l links
            (Before-of_Ordered 1 b.base pre b (c ∷ post) (omega arith) refl o) (omega arith) h,
      ),
      rw (bases-append pre (b ∷ c ∷ post)) (
          list_add_before-Ring l b.base 0 (bases pre) (c.base ∷ bases post)
            (Ordered-fresh pre b (c ∷ post) o) r),
    )
  where
    is_nil-append : (xs : List ℕ) → is_nil (xs ++ c.base ∷ bases post) ≡ false
    is_nil-append [] = refl
    is_nil-append (x ∷ xs) = refl

-- The descriptors once the block's head carries its size and the mark.
abbrev pub marked : Block → (ℕ → Page) → ℕ → Page
marked b pages = set_page_property b.base (set_property b.base b.size pages)

module _ {s : State} (pages : ℕ → Page) (pre : List Block) (b : Block) (post : List Block)
    (v : Holds s (pre ++ post)) (o : Ordered 1 (pre ++ b ∷ post))
    (same : Same b.base (b.base + b.size) s.pages pages) (al : Allocated pages b.base b.size)
    (room : total (pre ++ post) + b.size < 2 ^ 32) where
  abbrev new_pages : ℕ → Page
  new_pages = marked b pages

  after : Ordered b.base (b ∷ post)
  after = let o' = Ordered-right 1 pre (b ∷ post) o in (omega arith, o'.1, o'.2)

  pub new_pages-Same : Same b.base (b.base + b.size) s.pages new_pages
  unfolding put
  new_pages-Same q out = ground (arith, same q out, after.1)

  new-IsFree : IsFree new_pages b
  unfolding put
  new-IsFree = record {
    size = ground (arith, total-append pre post);
    head = ground arith;
    usable = ground (arith, al b.base, after.1);
    inner = λ q lo hi. ground (arith, al q);
  }

  pub new-IsFree' : All (IsFree new_pages) (pre ++ b ∷ post)
  new-IsFree' =
      All-append _ pre (b ∷ post)
        (IsFree-frame' 1 pre new_pages-Same (Ordered-left 1 pre (b ∷ post) o)
          (Away-before 1 b.base (b.base + b.size) pre b post refl o) (All-left _ pre post v.free))
        (
          new-IsFree,
          IsFree-frame' (b.base + b.size) post new_pages-Same after.2
              (Away-after b.base (b.base + b.size) post after.2) (All-right _ pre post v.free),
        )

  -- A block put back on the list is on it afterwards, in address order, and is counted.
  pub add_block-Holds :
      NotAtEnd post pre
      → (s' : State) × (add_block b.base b.size pages s ≡ done s')
        × Holds s' (pre ++ b ∷ post)
        × Same b.base (b.base + b.size) s.pages s'.pages
  unfolding add_block
  add_block-Holds n =
      let count : u32 (s.nr_free + b.size) ≡ total (pre ++ b ∷ post) =
        omega (arith, v.count, total-append pre post, total-append pre (b ∷ post)) in
      let r : Ring s.links 0 (bases pre ++ bases post) = rw (bases-append pre post) at (v.ring) in
      let (l', e, r') = insert-Ring (u32 (s.nr_free + b.size) + 2) pre b post s.links r o n (
        omega (
          arith,
          count,
          length-le-total 1 (pre ++ b ∷ post) o,
          length-bases pre,
          length-append pre (b ∷ post),
        )) in
      (
        record { pages = new_pages; links = l'; nr_free = u32 (s.nr_free + b.size) },
        rw e,
        record {
          ring = r';
          ordered = o;
          free = new-IsFree';
          count = count;
          small = omega (arith, total-append pre post, total-append pre (b ∷ post));
        },
        new_pages-Same,
      )
