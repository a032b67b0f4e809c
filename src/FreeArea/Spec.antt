-- ===== src/FreeArea/Spec.antt =====
-- What giving pages back promises: the block is put in its place in address order and joined with
-- its neighbours.
use lab.Base.{
  ℕ, ◌+◌, ◌≤◌, ◌<◌, ◌≡◌, ◌≢◌, refl, inl, inr, ◌||◌, List, [], ◌∷◌, ◌++◌, All, ltb, ◌==◌,
  if◌then◌else◌, Bool-cases, arith,
}
use lab.FreeArea.Blocks.{
  Block, block, total, Ordered, Ordered-right, Ordered-weaken, inside, covered, leave,
}
use lab.FreeArea.Holds.{Away, Away-after}
use lab.FreeArea.Merge.{one, join}

unfoldable pub free_block : Block → List Block → List Block
free_block b [] = b ∷ []
free_block b (c ∷ cs) =
    if ltb b.base c.base
    then join b (c ∷ cs)
    else if c.base + c.size == b.base
    then join (one c b) cs
    else c ∷ free_block b cs

-- The blocks are in order, and between two of them there is a page that is not free.
abbrev pub Separated : ℕ → List Block → Type 0
Separated lo [] = Unit
Separated lo (b ∷ bs) = (lo < b.base) × (0 < b.size) × Separated (b.base + b.size) bs

pub Separated-weaken :
    (lo lo' : ℕ) (bs : List Block) → lo' ≤ lo → Separated lo bs → Separated lo' bs
Separated-weaken lo lo' [] h o = tt
Separated-weaken lo lo' (b ∷ bs) h o = (omega arith, o.1, o.2)

join-covered :
    (q : ℕ) (b : Block) (cs : List Block) → covered q (join b cs) ≡ (inside q b || covered q cs)
join-covered q b [] = refl
join-covered q b (c ∷ cs) = ground arith

-- Exactly the block's pages become free.
pub free_block-covered :
    (q : ℕ) (b : Block) (bs : List Block)
    → covered q (free_block b bs) ≡ (covered q bs || inside q b)
unfolding free_block
free_block-covered q b [] = ground arith
free_block-covered q b (c ∷ cs) =
    ground
      (arith, join-covered q b (c ∷ cs), join-covered q (one c b) cs, free_block-covered q b cs)

join-total : (b : Block) (cs : List Block) → total (join b cs) ≡ b.size + total cs
join-total b [] = refl
join-total b (c ∷ cs) = ground arith

pub free_block-total : (b : Block) (bs : List Block) → total (free_block b bs) ≡ b.size + total bs
unfolding free_block
free_block-total b [] = refl
free_block-total b (c ∷ cs) = ground (arith, join-total (one c b) cs, free_block-total b cs)

join-Separated :
    (lo : ℕ) (b : Block) (cs : List Block)
    → lo < b.base
    → 0 < b.size
    → Separated b.base cs
    → All (Away b.base (b.base + b.size)) cs
    → Separated lo (join b cs)
join-Separated lo b [] h p o a = (h, p, tt)
join-Separated lo b (c ∷ cs) h p o a = elim (Bool-cases (b.base + b.size == c.base)) [
  | inl touch ↦ rw touch (
    h,
    omega arith,
    Separated-weaken (c.base + c.size) (b.base + (b.size + c.size)) cs (ground arith) o.2,
  )
  | inr apart ↦ rw apart (h, p, (ground (arith, a.0), o.1, o.2))
]

-- Blocks that stand behind `lo` and away from a range stand behind the range.
Away-behind :
    (lo hi from lo' hi' : ℕ) (cs : List Block)
    → lo ≤ from
    → hi' ≤ hi
    → Separated from cs
    → All (Away lo hi) cs
    → All (Away lo' hi') cs
Away-behind lo hi from lo' hi' [] h k o a = tt
Away-behind lo hi from lo' hi' (c ∷ cs) h k o a = (
  inr (ground (arith, a.0)),
  Away-behind lo hi (c.base + c.size) lo' hi' cs (omega arith) k o.2 a.1,
)

-- No two free blocks touch afterwards, if none did before.
pub free_block-Separated :
    (lo : ℕ) (b : Block) (bs : List Block)
    → lo < b.base
    → 0 < b.size
    → Separated lo bs
    → All (Away b.base (b.base + b.size)) bs
    → Separated lo (free_block b bs)
unfolding free_block
free_block-Separated lo b [] h p o a = (h, p, tt)
free_block-Separated lo b (c ∷ cs) h p o a = elim (Bool-cases (ltb b.base c.base)) [
  | inl before ↦ rw before (join-Separated lo b (c ∷ cs) h p (ground arith, o.1, o.2) a)
  | inr behind ↦ elim (Bool-cases (c.base + c.size == b.base)) [
    | inl touch ↦
        rw (behind, touch)
          (join-Separated lo (one c b) cs o.0 (omega arith)
            (Separated-weaken (c.base + c.size) c.base cs (omega arith) o.2)
            (Away-behind b.base (b.base + b.size) (c.base + c.size) c.base
              (c.base + (c.size + b.size)) cs (ground arith) (ground arith) o.2 a.1))
    | inr apart ↦
        rw (behind, apart)
          (o.0, o.1, free_block-Separated (c.base + c.size) b cs (ground (arith, a.0)) p o.2 a.1)
  ]
]

-- The blocks end before `base`, none of them just before it.
abbrev pub NoTouch : ℕ → List Block → Type 0
NoTouch base = All (λ a. a.base + a.size ≢ base)

pub free_block-apart :
    (lo : ℕ) (pre : List Block) (b : Block) (post : List Block)
    → Ordered lo (pre ++ b ∷ post)
    → NoTouch b.base pre
    → free_block b (pre ++ post) ≡ pre ++ join b post
unfolding free_block
free_block-apart lo [] b [] o t = refl
free_block-apart lo [] b (c ∷ post) o t = ground arith
free_block-apart lo (a ∷ pre) b post o t =
    let after = Ordered-right (a.base + a.size) pre (b ∷ post) o.2 in
    ground (arith, after.0, t.0, free_block-apart (a.base + a.size) pre b post o.2 t.1)

pub free_block_touch :
    (lo : ℕ) (pre : List Block) (a b : Block) (post : List Block)
    → Ordered lo (pre ++ a ∷ b ∷ post)
    → a.base + a.size ≡ b.base
    → free_block b (pre ++ a ∷ post) ≡ pre ++ join (one a b) post
unfolding free_block
free_block_touch lo [] a b post o t = ground arith
free_block_touch lo (c ∷ pre) a b post o t =
    let after = Ordered-right (c.base + c.size) pre (a ∷ b ∷ post) o.2 in
    ground (arith, after.0, after.1, free_block_touch (c.base + c.size) pre a b post o.2 t)

Separated-before :
    (lo : ℕ) (pre : List Block) (b : Block) (post : List Block)
    → Separated lo (pre ++ b ∷ post)
    → lo < b.base
Separated-before lo [] b post o = o.0
Separated-before lo (a ∷ pre) b post o =
    omega (arith, Separated-before (a.base + a.size) pre b post o.2)

-- Giving back the pages just taken from a block makes the list what it was.
pub free_block-leave :
    (lo n : ℕ) (pre : List Block) (b : Block) (post : List Block)
    → 0 < n
    → n ≤ b.size
    → Separated lo (pre ++ b ∷ post)
    → free_block (block b.base n) (pre ++ leave n b post) ≡ pre ++ b ∷ post
unfolding free_block
free_block-leave lo n [] b [] p h o = ground arith
free_block-leave lo n [] b (c ∷ post) p h o = ground arith
free_block-leave lo n (a ∷ pre) b post p h o = ground (
  arith,
  Separated-before (a.base + a.size) pre b post o.2,
  free_block-leave (a.base + a.size) n pre b post p h o.2,
)

-- The pages taken lie outside of the blocks that are left.
pub leave-Away :
    (lo n : ℕ) (pre : List Block) (b : Block) (post : List Block)
    → n ≤ b.size
    → Ordered lo (pre ++ b ∷ post)
    → All (Away b.base (b.base + n)) (pre ++ leave n b post)
leave-Away lo n [] b post h o = elim (Bool-cases (ltb n b.size)) [
  | inl less ↦ rw less (
    inr (omega arith),
    Away-after b.base (b.base + n) post
        (Ordered-weaken (b.base + b.size) (b.base + n) post (omega arith) o.2),
  )
  | inr all ↦ rw all (
      Away-after b.base (b.base + n) post
        (Ordered-weaken (b.base + b.size) (b.base + n) post (omega arith) o.2))
]
leave-Away lo n (a ∷ pre) b post h o =
    let after = Ordered-right (a.base + a.size) pre (b ∷ post) o.2 in
    (inl after.0, leave-Away (a.base + a.size) n pre b post h o.2)
