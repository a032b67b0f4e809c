-- ===== src/FreeArea/Blocks.antt =====
-- The abstract free list: blocks of pages in address order.
use lab.Base.{
  ℕ, suc, ap, length, ◌+◌, ◌-◌, ◌≤◌, ◌<◌, ◌≡◌, refl, Bool, false, ◌&&◌, ◌||◌, List, [], ◌∷◌, ◌++◌,
  ltb, leb, if◌then◌else◌, arith,
}

pub record Block : Type 0 where
  pub base : ℕ
  pub size : ℕ

abbrev pub block : ℕ → ℕ → Block
block b n = record { base = b; size = n }

abbrev pub bases : List Block → List ℕ
bases [] = []
bases (b ∷ bs) = b.base ∷ bases bs

abbrev pub total : List Block → ℕ
total [] = 0
total (b ∷ bs) = b.size + total bs

-- The blocks have pages, follow one another from `lo` on, and do not overlap.
abbrev pub Ordered : ℕ → List Block → Type 0
Ordered lo [] = Unit
Ordered lo (b ∷ bs) = (lo ≤ b.base) × (0 < b.size) × Ordered (b.base + b.size) bs

abbrev pub inside : ℕ → Block → Bool
inside q b = leb b.base q && ltb q (b.base + b.size)

-- Page `q` is free.
abbrev pub covered : ℕ → List Block → Bool
covered q [] = false
covered q (b ∷ bs) = inside q b || covered q bs

-- What is left of block `b` when its first `n` pages are taken, in front of the blocks after it.
abbrev pub leave : ℕ → Block → List Block → List Block
leave n b bs = if ltb n b.size then block (b.base + n) (b.size - n) ∷ bs else bs

pub bases-append : (pre bs : List Block) → bases (pre ++ bs) ≡ bases pre ++ bases bs
bases-append [] bs = refl
bases-append (a ∷ pre) bs = λ i. a.base ∷ bases-append pre bs i

pub total-append : (pre bs : List Block) → total (pre ++ bs) ≡ total pre + total bs
total-append [] bs = omega arith
total-append (a ∷ pre) bs = omega (arith, total-append pre bs)

pub Ordered-weaken : (lo lo' : ℕ) (bs : List Block) → lo' ≤ lo → Ordered lo bs → Ordered lo' bs
Ordered-weaken lo lo' [] h o = tt
Ordered-weaken lo lo' (b ∷ bs) h o = (omega arith, o.1, o.2)

pub Ordered-right : (lo : ℕ) (pre bs : List Block) → Ordered lo (pre ++ bs) → Ordered lo bs
Ordered-right lo [] bs o = o
Ordered-right lo (a ∷ pre) bs o =
    Ordered-weaken (a.base + a.size) lo bs (omega arith)
      (Ordered-right (a.base + a.size) pre bs o.2)

-- Taking pages from one block keeps the order.
pub Ordered-leave :
    (lo n : ℕ) (pre post : List Block) (b : Block)
    → n ≤ b.size
    → Ordered lo (pre ++ b ∷ post)
    → Ordered lo (pre ++ leave n b post)
Ordered-leave lo n [] post b h o = ground (
  arith,
  Ordered-weaken (b.base + b.size) lo post,
  o.2,
  Ordered-weaken (b.base + b.size) (b.base + n + (b.size - n)) post,
)
Ordered-leave lo n (a ∷ pre) post b h o =
    (o.0, o.1, Ordered-leave (a.base + a.size) n pre post b h o.2)

pub total-leave :
    (n : ℕ) (b : Block) (post : List Block)
    → n ≤ b.size
    → total (leave n b post) + n ≡ b.size + total post
total-leave n b post h = ground arith

pub length-bases : (bs : List Block) → length (bases bs) ≡ length bs
length-bases [] = refl
length-bases (b ∷ bs) = ap suc (length-bases bs)
