-- ===== src/FirstFit/Alloc.antt =====
-- What `default_alloc_pages` returns, and how it changes the free list.
use lab.Base.{
  ℕ, zero, suc, ◌+◌, ◌≤◌, ◌<◌, ◌≡◌, refl, inl, inr, false, List, [], ◌∷◌, ◌++◌, length, ltb, leb,
  lt→ltb, ◌==◌, if◌then◌else◌, All, All-map, Bool-cases, done, arith,
}
use lab.LinkList.Links.{Forward, Links-Forward}
use lab.FreeArea.{State, take_pages}
use lab.FreeArea.Blocks.{Block, bases, Ordered}
use lab.FreeArea.Holds.{IsFree, Holds}
use lab.FreeArea.Outcome.{Outcome, no_block, take_pages-Outcome, length-le-total, All-lt_of_total}
use lab.FirstFit.{find_first, default_alloc_pages}

-- The base of the first block of at least `n` pages; 0 if there is none.
abbrev pub first_base : ℕ → List Block → ℕ
first_base n [] = 0
first_base n (b ∷ bs) = if leb n b.size then b.base else first_base n bs

pub find_first_lem :
    (k n a lo : ℕ) (s : State) (bs : List Block)
    → Forward s.links a (bases bs ++ 0 ∷ [])
    → All (λ c. (s.pages c.base).property ≡ c.size) bs
    → Ordered lo bs
    → 0 < lo
    → length bs < k
    → find_first k n a s ≡ done (first_base n bs)
unfolding find_first
find_first_lem zero n a lo s bs l f o pos fuel = absurd (omega arith)
find_first_lem (suc k) n a lo s [] l f o pos fuel = ground arith
find_first_lem (suc k) n a lo s (b ∷ bs) l f o pos fuel = ground (
  arith,
  f.0,
  find_first_lem k n b.base (b.base + b.size) s bs l.1 f.1 o.2 (omega arith) (omega arith),
)

-- No block before the chosen one is large enough.
abbrev pub IsFirst : ℕ → List Block → Block → List Block → Type 0
IsFirst n pre b post = All (λ c. c.size < n) pre

-- Either no block has `n` pages, or the search stops at the first that has.
data Search (n : ℕ) (bs : List Block) : ℕ → Type 0 where
  miss : All (λ c. c.size < n) bs → Search n bs 0
  hit :
      (pre : List Block) (b : Block) (post : List Block)
      → bs ≡ pre ++ b ∷ post
      → n ≤ b.size
      → 0 < b.base
      → All (λ c. c.size < n) pre
      → Search n bs b.base

first_base-Search :
    (n lo : ℕ) (bs : List Block) → 0 < lo → Ordered lo bs → Search n bs (first_base n bs)
first_base-Search n lo [] pos o = miss tt
first_base-Search n lo (b ∷ bs) pos o = elim (Bool-cases (leb n b.size)) [
  | inl fits ↦ rw fits (hit [] b bs refl (ground arith) (omega arith) tt)
  | inr small ↦
      rw small (skip (ground arith) (first_base-Search n (b.base + b.size) bs (omega arith) o.2))
]
  where
    skip : {r : ℕ} → b.size < n → Search n bs r → Search n (b ∷ bs) r
    skip h (miss a) = miss (h, a)
    skip h (hit pre c post e fits p a) = hit (b ∷ pre) c post (λ i. b ∷ e i) fits p (h, a)

Search-Outcome :
    {n r : ℕ} {s : State} {bs : List Block}
    → Holds s bs
    → 0 < n
    → Search n bs r
    → Outcome n s bs (IsFirst n) (if r == 0 then (0, s) else (r, take_pages r n s))
Search-Outcome v pos (miss a) = no_block a
Search-Outcome {n} v pos (hit pre b post e fits p a) =
    let ne : (b.base == 0) ≡ false = ground arith in
    rw ne (take_pages-Outcome (IsFirst n) n pre b post v e pos fits a)

-- For a positive `n`, on a state that stands for a list of free blocks, `default_alloc_pages` ends
-- without a failed assertion. It takes the first `n`
-- pages of the first block that has them; if no block has them, it returns NULL and changes nothing.
pub default_alloc_pages-IsFirst :
    {s : State} {bs : List Block} (n : ℕ)
    → Holds s bs
    → 0 < n
    → (out : ℕ × State) × (default_alloc_pages n s ≡ done out) × Outcome n s bs (IsFirst n) out
unfolding default_alloc_pages
default_alloc_pages-IsFirst {s} {bs} n v pos = elim (Bool-cases (ltb s.nr_free n)) [
  | inl more ↦
      ((0, s), rw (lt→ltb 0 n pos, more), no_block (All-lt_of_total n bs (ground (arith, v.count))))
  | inr enough ↦ (
    (if first_base n bs == 0 then (0, s) else (first_base n bs, take_pages (first_base n bs) n s)),
    rw (
      lt→ltb 0 n pos,
      enough,
      find_first_lem (s.nr_free + 2) n 0 1 s bs
          (Links-Forward s.links 0 (bases bs ++ 0 ∷ []) v.ring.links)
          (All-map (IsFree s.pages) (λ c. (s.pages c.base).property ≡ c.size) bs (λ c f. f.size)
            v.free)
          v.ordered (omega arith) (omega (arith, v.count, length-le-total 1 bs v.ordered)),
    ),
    Search-Outcome v pos (first_base-Search n 1 bs (omega arith) v.ordered),
  )
]
