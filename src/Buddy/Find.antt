-- ===== src/Buddy/Find.antt =====
-- The search for a block's buddy on the list of its order.
use lab.Base.{
  ℕ, zero, suc, ◌+◌, ◌^◌, ◌≤◌, ◌<◌, ◌≡◌, refl, ap, ◌⊎◌, inl, inr, Option, none, some, List, [], ◌∷◌,
  ◌++◌, length, All, NotIn, ◌==◌, if◌then◌else◌, Bool-cases, done, arith,
}
use lab.LinkList.Links.{Links}
use lab.Buddy.{State, buddy_remove_free, find_block, buddy_address, buddy_find_and_remove}
use lab.Buddy.Lists.{Lists, sum_over, pow_pos, sum_over-le-weigh}
use lab.Buddy.Holds.{Desc, Holds}

-- The first block of the list that stands at `addr`.
abbrev look : ℕ → List ℕ → Option ℕ
look addr [] = none
look addr (x ∷ xs) = if x == addr then some x else look addr xs

find_block-look :
    (k o addr a : ℕ) (s : State) (xs : List ℕ)
    → Links s.links a (xs ++ o ∷ [])
    → All (Desc s o) xs
    → o < 11
    → length xs < k
    → find_block k o addr a s ≡ done (look addr xs)
unfolding find_block
find_block-look zero o addr a s xs l d h fuel = absurd (omega arith)
find_block-look (suc k) o addr a s [] l d h fuel = ground arith
find_block-look (suc k) o addr a s (x ∷ xs) l d h fuel =
    ground (arith, d.0.base, d.0.above, find_block-look k o addr x s xs l.1 d.1 h (omega arith))

look-cases :
    (addr : ℕ) (xs : List ℕ)
    → ((look addr xs ≡ none) × NotIn addr xs)
      ⊎ ((pre post : List ℕ) × (look addr xs ≡ some addr) × (xs ≡ pre ++ addr ∷ post))
look-cases addr [] = inl (refl, tt)
look-cases addr (x ∷ xs) = elim (Bool-cases (x == addr)) [
  | inl hit ↦
      let e : x ≡ addr = ground arith in inr ([], xs, (rw hit (ap some e)), ap (λ y. y ∷ xs) e)
  | inr miss ↦ elim (look-cases addr xs) [
    | inl (e, n) ↦ inl (rw miss e, ((λ q. ground arith), n))
    | inr (pre, post, e, q) ↦ inr (x ∷ pre, post, rw miss e, ap (λ l. x ∷ l) q)
  ]
]

length-le-sum : (o : ℕ) (xs : List ℕ) → length xs ≤ sum_over (λ p. 2 ^ o) xs
unfolding sum_over
length-le-sum o [] = omega arith
length-le-sum o (x ∷ xs) = omega (arith, length-le-sum o xs, pow_pos o)

-- Either the buddy is not free, and nothing changes, or it is taken off its list.
pub find_and_remove-cases :
    {s : State} {fl : Lists} (pages base o : ℕ)
    → Holds s fl
    → o < 11
    → let addr = buddy_address pages base o in
      ((buddy_find_and_remove pages base o s ≡ done (none, s)) × NotIn addr (fl o))
      ⊎ ((pre post : List ℕ) × (fl o ≡ pre ++ addr ∷ post)
          × (buddy_find_and_remove pages base o s ≡ done (some addr, (buddy_remove_free addr s).1)))
unfolding buddy_find_and_remove
find_and_remove-cases {s} {fl} pages base o v h =
    let addr = buddy_address pages base o in
    let run =
      find_block-look (s.nr_free + 2) o addr o s (fl o) (v.rings o h).links (v.descs o h) h
        (omega (arith, v.count, length-le-sum o (fl o), sum_over-le-weigh (λ o p. 2 ^ o) o fl h)) in
    elim (look-cases addr (fl o)) [
      | inl (e, n) ↦ inl (rw (run, e), n)
      | inr (pre, post, e, q) ↦ inr (pre, post, q, rw (run, e))
    ]
