-- ===== src/FreeArea/Merge.antt =====
-- The two merges of `free_pages`.
use lab.Base.{
  ℕ, ◌+◌, ◌^◌, ◌<◌, ◌≡◌, ◌≢◌, refl, ◌⊎◌, inl, inr, false, List, [], ◌∷◌, ◌++◌, append_assoc, last,
  All, All-append, All-left, All-right, All-mid, ◌==◌, if◌then◌else◌, Bool-cases, arith,
}
use lab.LinkList.{list_del}
use lab.LinkList.Links.{Links}
use lab.LinkList.Ring.{Ring, Ring-cut}
use lab.LinkList.Laws.{list_del-Ring}
use lab.FreeArea.{State, put, set_property, clear_page_property, merge_prev, merge_next}
use lab.FreeArea.Blocks.{
  Block, block, bases, bases-append, total, total-append, Ordered, Ordered-right, Ordered-weaken,
}
use lab.FreeArea.Holds.{IsFree, Holds, Same, IsFree-frame', Away-after, Away-before, Ordered-left}

-- What both merges write: block `b` becomes the end of block `a`.
abbrev merged : ℕ → ℕ → State → State
merged a b s = record s {
  pages =
      clear_page_property b (set_property a ((s.pages a).property + (s.pages b).property) s.pages);
  links = list_del b s.links;
}

-- The list with two adjacent blocks made one.
abbrev pub one : Block → Block → Block
one a b = block a.base (a.size + b.size)

total-one :
    (pre : List Block) (a b : Block) (post : List Block)
    → total (pre ++ a ∷ b ∷ post) ≡ total (pre ++ one a b ∷ post)
total-one pre a b post =
    omega (arith, total-append pre (a ∷ b ∷ post), total-append pre (one a b ∷ post))

Ordered-one :
    (lo : ℕ) (pre : List Block) (a b : Block) (post : List Block)
    → a.base + a.size ≡ b.base
    → Ordered lo (pre ++ a ∷ b ∷ post)
    → Ordered lo (pre ++ one a b ∷ post)
Ordered-one lo [] a b post e o = (
  o.0,
  omega arith,
  Ordered-weaken (b.base + b.size) (a.base + (a.size + b.size)) post (omega arith) o.2.2,
)
Ordered-one lo (c ∷ pre) a b post e o = (o.0, o.1, Ordered-one (c.base + c.size) pre a b post e o.2)

module _ {s : State} (pre : List Block) (a b : Block) (post : List Block)
    (v : Holds s (pre ++ a ∷ b ∷ post)) (touch : a.base + a.size ≡ b.base) where
  s' : State
  s' = merged a.base b.base s

  IsFree-a : IsFree s.pages a
  IsFree-a = All-mid _ pre (b ∷ post) v.free

  IsFree-b : All (IsFree s.pages) (b ∷ post)
  IsFree-b = (All-right _ pre (a ∷ b ∷ post) v.free).1

  tail : Ordered a.base (a ∷ b ∷ post)
  tail = let o = Ordered-right 1 pre (a ∷ b ∷ post) v.ordered in (omega arith, o.1, o.2)

  fits : a.size + b.size < 2 ^ 32
  fits = omega (arith, v.small, total-append pre (a ∷ b ∷ post))

  merged-Same : Same a.base (b.base + b.size) s.pages s'.pages
  unfolding s' put
  merged-Same q out = elim out [
    | inl h ↦ ground (arith, tail.1, tail.2.1)
    | inr h ↦ ground (arith, tail.1, tail.2.1)
  ]

  one-IsFree : IsFree s'.pages (one a b)
  unfolding s' put
  one-IsFree = record {
    size = ground (arith, tail.1, IsFree-a.size, IsFree-b.0.size, fits);
    head = ground (arith, tail.1, IsFree-a.head);
    usable = ground (arith, tail.1, IsFree-a.usable);
    inner =
        λ q lo hi. ground (arith, tail.1, IsFree-a.inner q, IsFree-b.0.inner q, IsFree-b.0.usable);
  }

  merged-Ring : Ring s'.links 0 (bases (pre ++ one a b ∷ post))
  unfolding s'
  merged-Ring =
      let r : Ring s.links 0 (bases pre ++ a.base ∷ b.base ∷ bases post) =
        rw (bases-append pre (a ∷ b ∷ post)) at (v.ring) in
      let r' =
        list_del-Ring s.links b.base 0 (bases pre ++ a.base ∷ []) (bases post)
          (rw append_assoc r) in
      rw (bases-append pre (one a b ∷ post)) (rw append_assoc at r')

  pub merged-Holds : Holds (merged a.base b.base s) (pre ++ one a b ∷ post)
  unfolding s'
  merged-Holds = record {
    ring = merged-Ring;
    ordered = Ordered-one 1 pre a b post touch v.ordered;
    free =
        All-append _ pre (one a b ∷ post)
          (IsFree-frame' 1 pre merged-Same (Ordered-left 1 pre (a ∷ b ∷ post) v.ordered)
            (Away-before 1 a.base (b.base + b.size) pre a (b ∷ post) refl v.ordered)
            (All-left _ pre (a ∷ b ∷ post) v.free))
          (
            one-IsFree,
            IsFree-frame' (b.base + b.size) post merged-Same tail.2.2
                (Away-after a.base (b.base + b.size) post tail.2.2) IsFree-b.1,
          );
    count = omega (arith, v.count, total-one pre a b post);
    small = omega (arith, v.small, total-one pre a b post);
  }

-- `b` joined with the first of the blocks behind it, if that follows at once.
abbrev pub join : Block → List Block → List Block
join b [] = b ∷ []
join b (c ∷ post) = if b.base + b.size == c.base then one b c ∷ post else b ∷ c ∷ post

-- What stands round a block in the ring.
around :
    {s : State} (pre : List Block) (b : Block) (post : List Block)
    → Holds s (pre ++ b ∷ post)
    → ((s.links b.base).prev ≡ last 0 (bases pre)) × Links s.links b.base (bases post ++ 0 ∷ [])
around pre b post v =
    let (_, e, after) =
      Ring-cut (bases pre) (b.base ∷ bases post) (rw (bases-append pre (b ∷ post)) at (v.ring)) in
    (e.1, after)

block-IsFree :
    {s : State} (pre : List Block) (b : Block) (post : List Block)
    → Holds s (pre ++ b ∷ post)
    → (0 < b.base) × ((s.pages b.base).property ≡ b.size)
block-IsFree pre b post v =
    let o = Ordered-right 1 pre (b ∷ post) v.ordered in (o.0, (All-mid _ pre post v.free).size)

-- The merge with the block behind.
pub merge_next-Holds :
    {s : State} (pre : List Block) (b : Block) (post : List Block)
    → Holds s (pre ++ b ∷ post)
    → Holds (merge_next b.base s) (pre ++ join b post)
unfolding merge_next
merge_next-Holds {s} pre b [] v = rw ((around pre b [] v).1.0.0) v
merge_next-Holds {s} pre b (c ∷ post) v =
    let next : (s.links b.base).next ≡ c.base = (around pre b (c ∷ post) v).1.0.0 in
    let v' : Holds s ((pre ++ b ∷ []) ++ c ∷ post) = rw append_assoc v in
    let (pos, _) = block-IsFree (pre ++ b ∷ []) c post v' in
    let size : (s.pages b.base).property ≡ b.size = (block-IsFree pre b (c ∷ post) v).1 in
    let ne : (c.base == 0) ≡ false = ground arith in
    elim (Bool-cases (b.base + b.size == c.base)) [
      | inl touch ↦
          let m = merged-Holds pre b c post v (ground arith) in
          rw (next, ne, touch, size, touch) (rw size at m)
      | inr apart ↦ rw (next, ne, size, apart) v
    ]

-- The merge with the block in front of it, where there is one: block `a`.
pub merge_prev-behind :
    {s : State} (pre : List Block) (a b : Block) (post : List Block)
    → Holds s (pre ++ a ∷ b ∷ post)
    → let (base, s') = merge_prev b.base s in
      ((base ≡ a.base) × (a.base + a.size ≡ b.base) × Holds s' (pre ++ one a b ∷ post))
      ⊎ ((base ≡ b.base) × (a.base + a.size ≢ b.base) × (s' ≡ s))
unfolding merge_prev
merge_prev-behind {s} pre a b post v =
    let prev : (s.links b.base).prev ≡ a.base = (around pre a (b ∷ post) v).1.0.1 in
    let (pos, size) = block-IsFree pre a (b ∷ post) v in
    let ne : (a.base == 0) ≡ false = ground arith in
    elim (Bool-cases (a.base + a.size == b.base)) [
      | inl touch ↦
          let m = merged-Holds pre a b post v (ground arith) in
          rw (prev, ne, size, touch) (inl (refl, ground arith, rw size at m))
      | inr apart ↦ rw (prev, ne, size, apart) (inr (refl, ground arith, refl))
    ]

-- The first block of the list has none in front of it.
pub merge_prev-first :
    {s : State} (b : Block) (post : List Block)
    → Holds s (b ∷ post)
    → merge_prev b.base s ≡ (b.base, s)
unfolding merge_prev
merge_prev-first b post v = rw ((around [] b post v).0)
