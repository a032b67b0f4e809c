-- ===== src/FreeArea/Holds.antt =====
-- When a state stands for an abstract free list, and what writes to page descriptors leave alone.
use lab.Base.{
  ℕ, ◌+◌, ◌^◌, ◌≤◌, ◌<◌, ◌≡◌, ◌⊎◌, inl, inr, true, false, List, [], ◌∷◌, ◌++◌, All, NotIn, Distinct,
  arith,
}
use lab.LinkList.Ring.{Ring}
use lab.FreeArea.{Page, State}
use lab.FreeArea.Blocks.{Block, bases, total, Ordered, Ordered-right}

-- The head page of the block carries its size and the mark; no other page of it is marked.
pub record IsFree (pages : ℕ → Page) (b : Block) : Type 0 where
  pub size : (pages b.base).property ≡ b.size
  pub head : (pages b.base).head ≡ true
  pub usable : (pages b.base).reserved ≡ false
  pub inner :
      (q : ℕ)
      → b.base < q
      → q < b.base + b.size
      → ((pages q).reserved ≡ false) × ((pages q).head ≡ false)

-- The free list holds the blocks `bs`, and `nr_free` counts their pages.
pub record Holds (s : State) (bs : List Block) : Type 0 where
  pub ring : Ring s.links 0 (bases bs)
  pub ordered : Ordered 1 bs
  pub free : All (IsFree s.pages) bs
  pub count : s.nr_free ≡ total bs
  pub small : total bs < 2 ^ 32

-- The `n` pages from `base` on are allocated: neither reserved nor marked as a free block.
abbrev pub Allocated : (ℕ → Page) → ℕ → ℕ → Type 0
Allocated pages base n =
    (q : ℕ) → base ≤ q → q < base + n → ((pages q).reserved ≡ false) × ((pages q).head ≡ false)

-- The block lies outside of the pages from `lo` to `hi`.
abbrev pub Away : ℕ → ℕ → Block → Type 0
Away lo hi c = (c.base + c.size ≤ lo) ⊎ (hi ≤ c.base)

-- The descriptors outside of the pages from `lo` to `hi` are the same.
abbrev pub Same : ℕ → ℕ → (ℕ → Page) → (ℕ → Page) → Type 0
Same lo hi pages pages' = (q : ℕ) → (q < lo) ⊎ (hi ≤ q) → pages' q ≡ pages q

pub IsFree-frame :
    {lo hi : ℕ} {pages pages' : ℕ → Page} (c : Block)
    → Same lo hi pages pages'
    → 0 < c.size
    → Away lo hi c
    → IsFree pages c
    → IsFree pages' c
IsFree-frame {lo} {hi} {pages} {pages'} c same pos away f = record {
  size = rw (at_ c.base (omega arith) (omega arith)) f.size;
  head = rw (at_ c.base (omega arith) (omega arith)) f.head;
  usable = rw (at_ c.base (omega arith) (omega arith)) f.usable;
  inner = λ q a b. rw (at_ q (omega arith) b) (f.inner q a b);
}
  where
    at_ : (q : ℕ) → c.base ≤ q → q < c.base + c.size → pages' q ≡ pages q
    at_ q a b = same q (elim away [ inl h ↦ inl (omega arith) | inr h ↦ inr (omega arith) ])

pub IsFree-frame' :
    {lo hi : ℕ} {pages pages' : ℕ → Page} (from : ℕ) (cs : List Block)
    → Same lo hi pages pages'
    → Ordered from cs
    → All (Away lo hi) cs
    → All (IsFree pages) cs
    → All (IsFree pages') cs
IsFree-frame' from [] same o away f = tt
IsFree-frame' from (c ∷ cs) same o away f =
    (IsFree-frame c same o.1 away.0 f.0, IsFree-frame' (c.base + c.size) cs same o.2 away.1 f.1)

pub Away-after : (lo hi : ℕ) (cs : List Block) → Ordered hi cs → All (Away lo hi) cs
Away-after lo hi [] o = tt
Away-after lo hi (c ∷ cs) o = (inr o.0, Away-after lo hi cs (weaken cs o.2))
  where
    weaken : (ds : List Block) → Ordered (c.base + c.size) ds → Ordered hi ds
    weaken [] k = tt
    weaken (d ∷ ds) k = (omega arith, k.1, k.2)

pub Away-before :
    (from lo hi : ℕ) (cs : List Block) (b : Block) (ds : List Block)
    → b.base ≡ lo
    → Ordered from (cs ++ b ∷ ds)
    → All (Away lo hi) cs
Away-before from lo hi [] b ds e o = tt
Away-before from lo hi (c ∷ cs) b ds e o =
    let after = Ordered-right (c.base + c.size) cs (b ∷ ds) o.2 in
    (inl (omega arith), Away-before (c.base + c.size) lo hi cs b ds e o.2)

pub Ordered-left : (lo : ℕ) (cs ds : List Block) → Ordered lo (cs ++ ds) → Ordered lo cs
Ordered-left lo [] ds o = tt
Ordered-left lo (c ∷ cs) ds o = (o.0, o.1, Ordered-left (c.base + c.size) cs ds o.2)

pub Ordered-NotIn : (lo p : ℕ) (cs : List Block) → p < lo → Ordered lo cs → NotIn p (bases cs)
Ordered-NotIn lo p [] h o = tt
Ordered-NotIn lo p (c ∷ cs) h o =
    (omega arith, Ordered-NotIn (c.base + c.size) p cs (omega arith) o.2)

pub Ordered-Distinct : (lo : ℕ) (cs : List Block) → Ordered lo cs → Distinct (bases cs)
Ordered-Distinct lo [] o = tt
Ordered-Distinct lo (c ∷ cs) o = (
  Ordered-NotIn (c.base + c.size) c.base cs (omega arith) o.2,
  Ordered-Distinct (c.base + c.size) cs o.2,
)
