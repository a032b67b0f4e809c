-- ===== src/BestFit/Alloc.antt =====
-- What `best_fit_alloc_pages` returns, and how it changes the free list.
use lab.Base.{
  ℕ, zero, suc, ◌+◌, ◌^◌, ◌≤◌, ◌<◌, ◌≡◌, refl, inl, inr, false, ◌&&◌, List, [], ◌∷◌, ◌++◌, length,
  ltb, leb, lt→ltb, u32, ◌==◌, if◌then◌else◌, All, Bool-cases, done, arith,
}
use lab.LinkList.Links.{Links}
use lab.FreeArea.{State, take_pages}
use lab.FreeArea.Blocks.{Block, bases, total, Ordered}
use lab.FreeArea.Holds.{IsFree, Holds}
use lab.FreeArea.Outcome.{Outcome, no_block, take_pages-Outcome, length-le-total, All-lt_of_total}
use lab.BestFit.{find_best, best_fit_alloc_pages}

-- The base of the last block that improves on `page` and `min_size`.
best_base : ℕ → ℕ → ℕ → List Block → ℕ
best_base n page min_size [] = page
best_base n page min_size (b ∷ bs) =
    let better = leb n b.size && ltb b.size min_size in
    best_base n (if better then b.base else page) (if better then b.size else min_size) bs

find_best_lem :
    (k n a lo page min_size : ℕ) (s : State) (bs : List Block)
    → Links s.links a (bases bs ++ 0 ∷ [])
    → All (IsFree s.pages) bs
    → Ordered lo bs
    → 0 < lo
    → length bs < k
    → find_best k n a page min_size s ≡ done (best_base n page min_size bs)
unfolding find_best best_base
find_best_lem zero n a lo page min_size s bs l f o pos fuel = absurd (omega arith)
find_best_lem (suc k) n a lo page min_size s [] l f o pos fuel = ground arith
find_best_lem (suc k) n a lo page min_size s (b ∷ bs) l f o pos fuel =
    let ne : (b.base == 0) ≡ false = ground arith in
    rw (l.0.0, ne, f.0.size)
      (find_best_lem k n b.base (b.base + b.size) _ _ s bs l.1 f.1 o.2 (omega arith) (omega arith))

-- The chosen block is smaller than the large enough ones before it, and not larger than those after.
abbrev pub IsBest : ℕ → List Block → Block → List Block → Type 0
IsBest n pre b post =
    All (λ c. n ≤ c.size → b.size < c.size) pre × All (λ c. n ≤ c.size → b.size ≤ c.size) post

data Search (n page min_size : ℕ) (bs : List Block) : ℕ → Type 0 where
  keep : All (λ c. n ≤ c.size → min_size ≤ c.size) bs → Search n page min_size bs page
  hit :
      (pre : List Block) (b : Block) (post : List Block)
      → bs ≡ pre ++ b ∷ post
      → n ≤ b.size
      → b.size < min_size
      → 0 < b.base
      → IsBest n pre b post
      → Search n page min_size bs b.base

Search-better :
    {n page min_size r : ℕ} (b : Block) {bs : List Block}
    → n ≤ b.size
    → b.size < min_size
    → 0 < b.base
    → Search n b.base b.size bs r
    → Search n page min_size (b ∷ bs) r
Search-better b {bs} fits less p (keep a) = hit [] b bs refl fits less p (tt, a)
Search-better b fits less p (hit pre c post e fits' less' p' (x, y)) =
    hit (b ∷ pre) c post (λ i. b ∷ e i) fits' (omega arith) p' (((λ h. less'), x), y)

Search-worse :
    {n page min_size r : ℕ} (b : Block) {bs : List Block}
    → (n ≤ b.size → min_size ≤ b.size)
    → Search n page min_size bs r
    → Search n page min_size (b ∷ bs) r
Search-worse b w (keep a) = keep (w, a)
Search-worse b w (hit pre c post e fits less p (x, y)) =
    hit (b ∷ pre) c post (λ i. b ∷ e i) fits less p (((λ h. omega (arith, w h)), x), y)

best_base-Search :
    (n lo page min_size : ℕ) (bs : List Block)
    → 0 < lo
    → Ordered lo bs
    → Search n page min_size bs (best_base n page min_size bs)
unfolding best_base
best_base-Search n lo page min_size [] pos o = keep tt
best_base-Search n lo page min_size (b ∷ bs) pos o =
    elim (Bool-cases (leb n b.size && ltb b.size min_size)) [
      | inl better ↦ rw better (
          Search-better b (ground arith) (ground arith) (omega arith)
            (best_base-Search n (b.base + b.size) b.base b.size bs (omega arith) o.2))
      | inr not_better ↦ rw not_better (
          Search-worse b (ground arith)
            (best_base-Search n (b.base + b.size) page min_size bs (omega arith) o.2))
    ]

All-small :
    (n t : ℕ) (bs : List Block)
    → total bs ≤ t
    → All (λ c. n ≤ c.size → t + 1 ≤ c.size) bs
    → All (λ c. c.size < n) bs
All-small n t [] h a = tt
All-small n t (b ∷ bs) h a = (ground (arith, a.0), All-small n t bs (omega arith) a.1)

Search-Outcome :
    {n t r : ℕ} {s : State} {bs : List Block}
    → Holds s bs
    → 0 < n
    → total bs ≤ t
    → Search n 0 (t + 1) bs r
    → Outcome n s bs (IsBest n) (if r == 0 then (0, s) else (r, take_pages r n s))
Search-Outcome {n} {t} {bs} v pos h (keep a) = no_block (All-small n t bs h a)
Search-Outcome {n} v pos h (hit pre b post e fits less p best) =
    let ne : (b.base == 0) ≡ false = ground arith in
    rw ne (take_pages-Outcome (IsBest n) n pre b post v e pos fits best)

-- For a positive `n` and fewer than `2 ^ 32 - 1` free pages, `best_fit_alloc_pages` ends without a
-- failed assertion. It takes the first `n` pages of the first block among the smallest that have
-- them; if no block has them, it returns NULL and changes nothing.
pub best_fit_alloc_pages-IsBest :
    {s : State} {bs : List Block} (n : ℕ)
    → Holds s bs
    → 0 < n
    → total bs + 1 < 2 ^ 32
    → (out : ℕ × State) × (best_fit_alloc_pages n s ≡ done out) × Outcome n s bs (IsBest n) out
unfolding best_fit_alloc_pages
best_fit_alloc_pages-IsBest {s} {bs} n v pos room = elim (Bool-cases (ltb s.nr_free n)) [
  | inl more ↦
      ((0, s), rw (lt→ltb 0 n pos, more), no_block (All-lt_of_total n bs (ground (arith, v.count))))
  | inr enough ↦
      let r = best_base n 0 (s.nr_free + 1) bs in
      let no_wrap : u32 (s.nr_free + 1) ≡ s.nr_free + 1 = omega (arith, v.count) in
      (
        (if r == 0 then (0, s) else (r, take_pages r n s)),
        rw (
          lt→ltb 0 n pos,
          enough,
          no_wrap,
          find_best_lem (s.nr_free + 2) n 0 1 0 (s.nr_free + 1) s bs v.ring.links v.free v.ordered
              (omega arith) (omega (arith, v.count, length-le-total 1 bs v.ordered)),
        ),
        Search-Outcome v pos (omega (arith, v.count))
            (best_base-Search n 1 0 (s.nr_free + 1) bs (omega arith) v.ordered),
      )
]
