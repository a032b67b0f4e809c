-- ===== src/Buddy/Lists.antt =====
-- The free lists of the buddy manager as lists of bases, one for each order, and sums over them.
use native.Mathlib.Decide.{dec_lt}
use native.Mathlib.Nat.{pow-suc}
use lab.Base.{
  ap, ℕ, zero, suc, ◌+◌, ◌^◌, ◌≤◌, ◌<◌, ◌≡◌, ◌≢◌, refl, List, [], ◌∷◌, ◌++◌, NotIn, leb, ltb, ◌==◌,
  ◌&&◌, if◌then◌else◌, arith,
}

-- The bases on the list of each order.
abbrev pub Lists : Type 0
Lists = ℕ → List ℕ

abbrev pub update : ℕ → List ℕ → Lists → Lists
update o xs fl = λ i. if i == o then xs else fl i

-- `w o p` summed over the blocks of order o on one list.
unfoldable pub sum_over : (ℕ → ℕ) → List ℕ → ℕ
sum_over w [] = 0
sum_over w (p ∷ ps) = w p + sum_over w ps

pub sum_below : ℕ → (ℕ → ℕ) → ℕ
sum_below zero f = 0
sum_below (suc k) f = f k + sum_below k f

-- `w o p` summed over all free blocks p of each order o.
pub weigh : (ℕ → ℕ → ℕ) → Lists → ℕ
unfolding sum_over sum_below
weigh w fl = sum_below 11 (λ o. sum_over (w o) (fl o))

-- Whether the block of order o at p has page q: 1 or 0.
abbrev pub holds_page : ℕ → ℕ → ℕ → ℕ
holds_page q o p = if leb p q && ltb q (p + 2 ^ o) then 1 else 0

-- The number of free pages, and the number of free blocks that have page q.
abbrev pub free_pages_in : Lists → ℕ
free_pages_in fl = weigh (λ o p. 2 ^ o) fl

abbrev pub cover : Lists → ℕ → ℕ
cover fl q = weigh (holds_page q) fl

-- The two halves of a block weigh as much as the block.
abbrev pub Halves : (ℕ → ℕ → ℕ) → Type 0
Halves w = (o p : ℕ) → w (suc o) p ≡ w o p + w o (p + 2 ^ o)

sum_below-change :
    (k o : ℕ) (f g : ℕ → ℕ)
    → ((i : ℕ) → i ≢ o → g i ≡ f i)
    → (k ≤ o → sum_below k g ≡ sum_below k f) × (o < k → sum_below k g + f o ≡ sum_below k f + g o)
unfolding sum_below
sum_below-change zero o f g same = ((λ h. refl), λ h. absurd (omega arith))
sum_below-change (suc k) o f g same =
    let (before, behind) = sum_below-change k o f g same in
    (
      (λ h. omega (arith, same k (omega arith), before (omega arith))),
      λ h. elim (dec_lt o k) [
        | yes less ↦ omega (arith, same k (omega arith), behind less)
        | no more ↦
            let e : k ≡ o = omega arith in
            let b = before (omega arith) in omega (arith, b, ap f e, ap g e)
      ],
    )

-- Changing one list changes the sum by what that list weighs.
pub weigh-update :
    (w : ℕ → ℕ → ℕ) (o : ℕ) (xs : List ℕ) (fl : Lists)
    → o < 11
    → weigh w (update o xs fl) + sum_over (w o) (fl o) ≡ weigh w fl + sum_over (w o) xs
unfolding weigh
weigh-update w o xs fl h =
    let f = λ (i : ℕ). sum_over (w i) (fl i) in
    let g = λ (i : ℕ). sum_over (w i) (update o xs fl i) in
    let change = (sum_below-change 11 o f g (λ i ne. ground arith)).1 h in
    let here : g o ≡ sum_over (w o) xs = ground arith in omega (arith, change, here)

pub sum_over-remove :
    (w : ℕ → ℕ) (pre post : List ℕ) (p : ℕ)
    → sum_over w (pre ++ p ∷ post) ≡ w p + sum_over w (pre ++ post)
unfolding sum_over
sum_over-remove w [] post p = refl
sum_over-remove w (x ∷ pre) post p = omega (arith, sum_over-remove w pre post p)

sum_over_zero : (q o : ℕ) (xs : List ℕ) → sum_over (holds_page q o) xs ≡ 0 → 0 < 2 ^ o → NotIn q xs
unfolding sum_over
sum_over_zero q o [] h p = tt
sum_over_zero q o (x ∷ xs) h p = ((λ e. ground arith), sum_over_zero q o xs (omega arith) p)

term-le-sum_below : (k i : ℕ) (f : ℕ → ℕ) → i < k → f i ≤ sum_below k f
unfolding sum_below
term-le-sum_below zero i f h = absurd (omega arith)
term-le-sum_below (suc k) i f h = elim (dec_lt i k) [
  | yes less ↦ omega (arith, term-le-sum_below k i f less)
  | no more ↦ let e : k ≡ i = omega arith in omega (arith, ap f e)
]

pub pow_pos : (o : ℕ) → 0 < 2 ^ o
pow_pos zero = omega arith
pow_pos (suc o) = omega (arith, pow-suc 2 o, pow_pos o)

pub pow_double : (o : ℕ) → 2 ^ suc o ≡ 2 ^ o + 2 ^ o
pow_double o = omega (arith, pow-suc 2 o)

-- A page that no free block has is the base of none.
pub NotIn_of_cover : (fl : Lists) (q i : ℕ) → i < 11 → cover fl q ≡ 0 → NotIn q (fl i)
unfolding weigh
NotIn_of_cover fl q i h z =
    let below = term-le-sum_below 11 i (λ o. sum_over (holds_page q o) (fl o)) h in
    sum_over_zero q i (fl i) (omega (arith, below)) (pow_pos i)

pub Halves-holds_page : (q : ℕ) → Halves (holds_page q)
Halves-holds_page q o p = ground (arith, pow_double o, pow_pos o)

pub Halves-size : Halves (λ o p. 2 ^ o)
Halves-size o p = pow_double o

pub sum_over-le-weigh :
    (w : ℕ → ℕ → ℕ) (o : ℕ) (fl : Lists) → o < 11 → sum_over (w o) (fl o) ≤ weigh w fl
unfolding weigh
sum_over-le-weigh w o fl h = term-le-sum_below 11 o (λ i. sum_over (w i) (fl i)) h

pub weigh-empty : (w : ℕ → ℕ → ℕ) → weigh w (λ o. []) ≡ 0
unfolding weigh sum_over sum_below
weigh-empty w = refl
