-- ===== src/FreeArea/Outcome.antt =====
-- What an allocation from the free list leads to, whichever block the manager chooses.
use lab.Base.{
  ℕ, ◌+◌, ◌≤◌, ◌<◌, ◌≡◌, ◌≢◌, refl, sym, true, false, ◌||◌, List, [], ◌∷◌, ◌++◌, length, All, arith,
}
use mathlib.Core.Bool.{or_assoc}
use lab.FreeArea.{State, take_pages}
use lab.FreeArea.Blocks.{
  Block, block, total, total-append, total-leave, Ordered, Ordered-right, leave, inside, covered,
}
use lab.FreeArea.Holds.{Holds, Allocated, Same}
use lab.FreeArea.Take.{take_pages-Holds, take_pages-Allocated, take_pages-Same}

-- Either no block is large enough, and nothing changes; or the first `n` pages of a block are taken
-- that meets `Chosen`, they are marked as allocated, and no descriptor outside of the block changes.
pub data Outcome (n : ℕ) (s : State) (bs : List Block)
    (Chosen : List Block → Block → List Block → Type 0) : ℕ × State → Type 0 where
  no_block : All (λ c. c.size < n) bs → Outcome n s bs Chosen (0, s)
  taken :
      {s' : State} (pre : List Block) (b : Block) (post : List Block)
      → bs ≡ pre ++ b ∷ post
      → n ≤ b.size
      → Chosen pre b post
      → Holds s' (pre ++ leave n b post)
      → Allocated s'.pages b.base n
      → Same b.base (b.base + b.size) s.pages s'.pages
      → Outcome n s bs Chosen (b.base, s')

pub take_pages-Outcome :
    {s : State} {bs : List Block} (Chosen : List Block → Block → List Block → Type 0) (n : ℕ)
    (pre : List Block) (b : Block) (post : List Block)
    → Holds s bs
    → bs ≡ pre ++ b ∷ post
    → 0 < n
    → n ≤ b.size
    → Chosen pre b post
    → Outcome n s bs Chosen (b.base, take_pages b.base n s)
take_pages-Outcome {s} {bs} Chosen n pre b post v e pos fits c =
    let v' : Holds s (pre ++ b ∷ post) = rw e at v in
    taken pre b post e fits c (take_pages-Holds n pre b post v' pos fits)
      (take_pages-Allocated n pre b post v' pos fits) (take_pages-Same n pre b post v' pos fits)

pub length-le-total : (lo : ℕ) (bs : List Block) → Ordered lo bs → length bs ≤ total bs
length-le-total lo [] o = omega arith
length-le-total lo (b ∷ bs) o = omega (arith, length-le-total (b.base + b.size) bs o.2)

pub size-le-total :
    (pre : List Block) (b : Block) (post : List Block) → b.size ≤ total (pre ++ b ∷ post)
size-le-total pre b post = omega (arith, total-append pre (b ∷ post))

pub All-lt_of_total : (n : ℕ) (bs : List Block) → total bs < n → All (λ c. c.size < n) bs
All-lt_of_total n [] h = tt
All-lt_of_total n (b ∷ bs) h = (omega arith, All-lt_of_total n bs (omega arith))

not_covered : (q lo : ℕ) (bs : List Block) → Ordered lo bs → q < lo → covered q bs ≡ false
not_covered q lo [] o h = refl
not_covered q lo (b ∷ bs) o h = ground (arith, not_covered q (b.base + b.size) bs o.2)

-- Taking pages frees no page and forgets none.
pub covered-leave :
    (q lo n : ℕ) (pre : List Block) (b : Block) (post : List Block)
    → n ≤ b.size
    → Ordered lo (pre ++ b ∷ post)
    → (covered q (pre ++ b ∷ post)
        ≡ (covered q (pre ++ leave n b post) || inside q (block b.base n)))
      × (inside q (block b.base n) ≡ true → covered q (pre ++ leave n b post) ≡ false)
covered-leave q lo n [] b post h o = (
  ground (arith, not_covered q (b.base + b.size) post o.2),
  λ i. ground (arith, not_covered q (b.base + b.size) post o.2),
)
covered-leave q lo n (a ∷ pre) b post h o =
    let ih = covered-leave q (a.base + a.size) n pre b post h o.2 in
    let after = Ordered-right (a.base + a.size) pre (b ∷ post) o.2 in
    (
      rw (ih.0) (
          sym (
            or_assoc (inside q a) (covered q (pre ++ leave n b post)) (inside q (block b.base n)))),
      λ i. ground (arith, ih.1 i, after.0),
    )

-- The pages of a successful allocation were free and no longer are; no other page changes.
pub record Taken (n : ℕ) (s : State) (bs : List Block) (out : ℕ × State) : Type 0 where
  pub left : List Block
  pub holds : Holds out.1 left
  pub covers : (q : ℕ) → covered q bs ≡ (covered q left || inside q (block out.0 n))
  pub apart : (q : ℕ) → inside q (block out.0 n) ≡ true → covered q left ≡ false
  pub allocated : Allocated out.1.pages out.0 n
  pub count : out.1.nr_free + n ≡ s.nr_free

pub Outcome-Taken :
    {n : ℕ} {s : State} {bs : List Block} {Chosen : List Block → Block → List Block → Type 0}
    {out : ℕ × State}
    → Holds s bs
    → Outcome n s bs Chosen out
    → out.0 ≢ 0
    → Taken n s bs out
Outcome-Taken v (no_block a) ne = absurd (ne refl)
Outcome-Taken {n} {s} v (taken pre b post e fits c v' al same) ne =
    let w : Holds s (pre ++ b ∷ post) = rw e at v in
    record {
      left = pre ++ leave n b post;
      holds = v';
      covers = λ q. rw e (covered-leave q 1 n pre b post fits w.ordered).0;
      apart = λ q. (covered-leave q 1 n pre b post fits w.ordered).1;
      allocated = al;
      count = omega (
        arith,
        v'.count,
        w.count,
        total-append pre (b ∷ post),
        total-append pre (leave n b post),
        total-leave n b post fits,
      );
    }
