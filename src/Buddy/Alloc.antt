-- ===== src/Buddy/Alloc.antt =====
-- What `buddy_alloc_pages` returns, and how it changes the free lists.
use native.Mathlib.Decide.{dec_lt}
use lab.Base.{
  ℕ, zero, suc, ◌+◌, ◌-◌, ◌^◌, ◌≤◌, ◌<◌, ◌≡◌, refl, sym, ◌∙◌, inl, inr, true, false, List, [], ◌∷◌,
  ltb, lt→ltb, le→ltb, ◌==◌, if◌then◌else◌, u32, Bool-cases, Run, done, arith,
}
use lab.LinkList.{list_empty, list_next}
use lab.LinkList.Ring.{Ring, Ring-cut}
use lab.LinkList.Laws.{list_empty-Ring, is_nil}
use lab.Buddy.{
  State, max_order, buddy_add_free, buddy_remove_free, find_order, split_block, buddy_alloc_pages,
}
use lab.Buddy.Lists.{
  Lists, update, weigh, holds_page, free_pages_in, cover, Halves, Halves-holds_page, Halves-size,
  pow_double,
}
use lab.Buddy.Holds.{Holds}
use lab.Buddy.Add.{add-Holds, add_weigh}
use lab.Buddy.Remove.{remove-Holds, remove_weigh, remove_base, remove_free, remove_above}
use lab.Buddy.Order.{IsOrder, size_to_order-IsOrder}

-- `find_order` stops at the first order with a free block, or above all of them.
find_order_lem :
    (k o : ℕ) (s : State) (fl : Lists)
    → Holds s fl
    → k + o ≡ 11
    → let r = find_order k o s.links in
      (o ≤ r)
      × (r ≤ 11)
      × ((i : ℕ) → o ≤ i → i < r → fl i ≡ [])
      × ((r < 11) → list_empty r s.links ≡ false)
unfolding find_order
find_order_lem zero o s fl v e =
    (omega arith, omega arith, (λ i lo hi. absurd (omega arith)), λ h. absurd (omega arith))
find_order_lem (suc k) o s fl v e = elim (Bool-cases (list_empty o s.links)) [
  | inl empty ↦
      let (lo, hi, none_below, found) = find_order_lem k (o + 1) s fl v (omega arith) in
      let here : fl o ≡ [] =
        nil_of (fl o) (sym (list_empty-Ring s.links o (fl o) (v.rings o (omega arith))) ∙ empty) in
      rw empty (
        omega arith,
        hi,
        (λ i a b. elim (dec_lt o i) [
          | yes less ↦ none_below i (omega arith) b
          | no more ↦ let q : i ≡ o = omega arith in rw q here
        ]),
        found,
      )
  | inr full ↦ rw full (omega arith, omega arith, (λ i a b. absurd (omega arith)), λ h. full)
]
  where
    nil_of : (xs : List ℕ) → is_nil xs ≡ true → xs ≡ []
    nil_of [] h = refl
    nil_of (x ∷ xs) h = cc

-- The first block of a list that is not empty.
first_block :
    (o : ℕ) (s : State) (xs : List ℕ)
    → Ring s.links o xs
    → list_empty o s.links ≡ false
    → (ys : List ℕ) × (xs ≡ list_next o s.links ∷ ys)
first_block o s [] r full = cc (list_empty-Ring s.links o [] r)
first_block o s (x ∷ xs) r full = let (_, e, _) = Ring-cut [] (x ∷ xs) r in (xs, rw (e.0))

-- Halving a block that is on no list gives back everything but the part that is asked for.
split_block-Holds :
    (k o need blk : ℕ) (s : State) (fl : Lists)
    → Holds s fl
    → k + need ≡ o
    → o < 11
    → 10 < blk
    → ((q : ℕ) → blk ≤ q → q < blk + 2 ^ o → cover fl q ≡ 0)
    → free_pages_in fl + 2 ^ o < 2 ^ 32
    → (fl' : Lists) × Holds (split_block k o blk s) fl'
      × ((w : ℕ → ℕ → ℕ) → Halves w → weigh w fl' + w need blk ≡ weigh w fl + w o blk)
unfolding split_block
split_block-Holds zero o need blk s fl v e ho above free room =
    (fl, v, λ w h. let q : need ≡ o = omega arith in rw q)
split_block-Holds (suc k) zero need blk s fl v e ho above free room = absurd (omega arith)
split_block-Holds (suc k) (suc m) need blk s fl v e ho above free room =
    let pred : suc m - 1 ≡ m = omega arith in
    let half = pow_double m in
    let hm : m < 11 = omega arith in
    let p = blk + 2 ^ m in
    let upper : (q : ℕ) → p ≤ q → q < p + 2 ^ m → cover fl q ≡ 0 =
      λ q lo hi. free q (omega arith) (omega (arith, half)) in
    let v' = add-Holds v m p hm (omega arith) upper (omega (arith, half)) in
    let weight = add_weigh v m p hm (omega arith) upper (omega (arith, half)) in
    let (fl', v'', ws) =
      split_block-Holds k m need blk (buddy_add_free p m s) (update m (p ∷ fl m) fl) v'
        (omega arith) hm above
        (λ q lo hi.
          omega (arith, weight (holds_page q), free q lo (omega (arith, half)), not_in q m blk hi))
        (omega (arith, weight (λ o p. 2 ^ o), half)) in
    rw pred (fl', v'', λ w h. omega (arith, ws w h, weight w, h m blk))
  where
    not_in : (q j b : ℕ) → q < b + 2 ^ j → holds_page q j (b + 2 ^ j) ≡ 0
    not_in q j b h = ground arith

-- Either the request is refused, and nothing changes: it is empty, it is larger than the number of
-- free pages, or no block of its order or a larger one is free. Or a block of the least order with
-- `n` pages is taken: exactly its pages, all free before, are free no longer.
pub data Outcome (n : ℕ) (s : State) (fl : Lists) : ℕ × State → Type 0 where
  empty_request : n ≡ 0 → Outcome n s fl (0, s)
  too_many : s.nr_free < n → Outcome n s fl (0, s)
  no_block :
      (need : ℕ)
      → IsOrder n need
      → ((i : ℕ) → need ≤ i → i < 11 → fl i ≡ [])
      → Outcome n s fl (0, s)
  taken :
      {s' : State} (blk need : ℕ) (fl' : Lists)
      → IsOrder n need
      → 10 < blk
      → Holds s' fl'
      → ((q : ℕ) → cover fl' q + holds_page q need blk ≡ cover fl q)
      → s'.nr_free + 2 ^ need ≡ s.nr_free
      → Outcome n s fl (blk, s')

module _ {s : State} {fl : Lists} (n need o : ℕ) (v : Holds s fl) (is : IsOrder n need)
    (le : need ≤ o) (ho : o < 11) (full : list_empty o s.links ≡ false) where
  take-Outcome :
      let (blk, s') = buddy_remove_free (list_next o s.links) s in
      Outcome n s fl (blk, split_block (o - need) o blk s')
  take-Outcome =
      let (ys, e) = first_block o s (fl o) (v.rings o ho) full in
      let blk = list_next o s.links in
      let weight = remove_weigh v o blk ho [] ys e in
      let above = remove_above v o blk ho [] ys e in
      let (fl', v', ws) =
        split_block-Holds (o - need) o need blk (buddy_remove_free blk s).1 (update o ys fl)
          (remove-Holds v o blk ho [] ys e) (omega arith) ho above (remove_free v o blk ho [] ys e)
          (omega (arith, weight (λ o p. 2 ^ o), v.small)) in
      rw (remove_base v o blk ho [] ys e) (
        taken blk need fl' is above v'
          (λ q. omega (arith, ws (holds_page q) (Halves-holds_page q), weight (holds_page q)))
          (omega (arith, ws (λ o p. 2 ^ o) Halves-size, weight (λ o p. 2 ^ o), v.count, v'.count)))

-- The part of `buddy_alloc_pages` behind `size_to_order`.
chosen : ℕ → ℕ → State → Run (ℕ × State)
chosen need o s =
    if ltb max_order o
    then done (0, s)
    else let (blk, s') = buddy_remove_free (list_next o s.links) s in
      done (blk, split_block (o - need) o blk s')

-- The order found, with what the search says of it; an order above all is as good as none.
find_order_any :
    (need : ℕ) (s : State) (fl : Lists)
    → Holds s fl
    → let o = find_order (11 - need) need s.links in
      (need ≤ o)
      × ((i : ℕ) → need ≤ i → i < o → i < 11 → fl i ≡ [])
      × ((o < 11) → list_empty o s.links ≡ false)
find_order_any need s fl v = elim (dec_lt need 12) [
  | yes h ↦
      let (lo, hi, none_below, full) = find_order_lem (11 - need) need s fl v (omega arith) in
      (lo, (λ i a b c. none_below i a b), full)
  | no h ↦
      let e : 11 - need ≡ 0 = omega arith in
      unfold find_order in
      rw e (omega arith, (λ i a b c. absurd (omega arith)), λ c. absurd (omega arith))
]

chosen-Outcome :
    {s : State} {fl : Lists} (n need : ℕ)
    → Holds s fl
    → IsOrder n need
    → (out : ℕ × State) × (chosen need (find_order (11 - need) need s.links) s ≡ done out)
      × Outcome n s fl out
unfolding chosen
chosen-Outcome {s} {fl} n need v is =
    let (lo, none_below, full) = find_order_any need s fl v in
    elim (dec_lt (find_order (11 - need) need s.links) 11) [
      | yes h ↦ (
        _,
        rw (le→ltb 10 (find_order (11 - need) need s.links) (omega arith)),
        take-Outcome n need (find_order (11 - need) need s.links) v is lo h (full h),
      )
      | no h ↦ (
        (0, s),
        rw (lt→ltb 10 (find_order (11 - need) need s.links) (omega arith)),
        no_block need is (λ i a b. none_below i a (omega arith) b),
      )
    ]

-- With at most 2 ^ 31 free pages `buddy_alloc_pages` ends, and meets its specification.
pub buddy_alloc_pages-Outcome :
    {s : State} {fl : Lists} (n : ℕ)
    → Holds s fl
    → s.nr_free ≤ 2 ^ 31
    → (out : ℕ × State) × (buddy_alloc_pages n s ≡ done out) × Outcome n s fl out
unfolding buddy_alloc_pages chosen
buddy_alloc_pages-Outcome {s} {fl} n v small = elim (Bool-cases (n == 0)) [
  | inl nothing ↦ ((0, s), rw nothing, empty_request (ground arith))
  | inr positive ↦ elim (Bool-cases (ltb s.nr_free n)) [
    | inl more ↦ ((0, s), rw (positive, more), too_many (ground arith))
    | inr enough ↦
        let fits : n ≤ 2 ^ 31 = ground arith in
        let word : u32 n ≡ n = omega arith in
        let (need, run, is) = size_to_order-IsOrder n fits in
        let (out, e, o) = chosen-Outcome n need v is in (out, rw (positive, enough, word, run) e, o)
  ]
]
