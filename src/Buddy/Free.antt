-- ===== src/Buddy/Free.antt =====
-- What `buddy_free_pages` does to the free lists.
use lab.Base.{
  ℕ, ◌+◌, ◌-◌, ◌^◌, ◌≤◌, ◌<◌, ◌≡◌, ◌≢◌, refl, ◌∙◌, inl, inr, List, [], ◌∷◌, ◌++◌, ltb, lt→ltb,
  if◌then◌else◌, u32, Run, done, sym, ap, arith,
}
use lab.Buddy.{
  State, buddy_add_free, buddy_remove_free, buddy_address, merge_loop, buddy_free_pages,
}
use lab.Buddy.Lists.{Lists, holds_page, free_pages_in, cover, Halves-size, Halves-holds_page}
use lab.Buddy.Holds.{Holds}
use lab.Buddy.Remove.{remove_count}
use lab.Buddy.Find.{find_and_remove-cases}
use lab.Buddy.Order.{IsOrder, size_to_order-IsOrder, order_below, order_above, IsOrder-unique}
use lab.Buddy.Coalesce.{Coalesced, gained, lost, merge-Coalesced}
use lab.Base.{All-mid}
use native.Mathlib.Decide.{dec_lt}

-- A call joins the block of order o at `base`.
free-merge :
    (pages base n o : ℕ) (s : State)
    → 0 < n
    → n ≤ 2 ^ 31
    → IsOrder n o
    → buddy_free_pages pages base n s ≡ merge_loop pages (11 - o) o base s
unfolding buddy_free_pages
free-merge pages base n o s pos small is =
    let word : u32 n ≡ n = omega arith in
    let (o', run, is') = size_to_order-IsOrder n small in
    rw (lt→ltb 0 n pos, word, run, IsOrder-unique n o' o is' is) refl

same_end : {s s' : State} → ◌≡◌ {A = Run State} (done s) (done s') → s ≡ s'
same_end e = cc

-- A page of a block without free pages is covered once with the block.
at_most_once :
    (c q base : ℕ) → c ≤ 1 → (base ≤ q → q < base + 1024 → c ≡ 0) → c + holds_page q 10 base ≤ 1
at_most_once c q base one none = elim (dec_lt q base) [
  | yes before ↦ ground arith
  | no from ↦ elim (dec_lt q (base + 1024)) [
    | yes inside ↦ ground (arith, none (omega arith) inside)
    | no behind ↦ ground arith
  ]
]

module _ (pages : ℕ) (high : 10 < pages) where
  -- A request's block, of order o for its n pages up to 1024, that shares no page with a free block is
  -- given back: `buddy_free_pages` ends and the lists stay in order. Every page weight that adds up
  -- over halves then counts the block's pages in addition, or those too less a block of 1024 pages that
  -- is on no list any more; this second case needs a free block of 1024 pages before.
  pub buddy_free_pages-Coalesced :
      {s : State} {fl : Lists} (base n o : ℕ)
      → Holds s fl
      → 0 < n
      → n ≤ 1024
      → IsOrder n o
      → pages ≤ base
      → ((q : ℕ) → base ≤ q → q < base + 2 ^ o → cover fl q ≡ 0)
      → free_pages_in fl + 2 ^ o < 2 ^ 32
      → (s' : State) × (buddy_free_pages pages base n s ≡ done s') × Coalesced o base fl s'
  buddy_free_pages-Coalesced {s} {fl} base n o v pos small is low free room =
      let top : o < 11 = omega (arith, order_below n o 10 (omega arith) is) in
      let (s', on, c) =
        merge-Coalesced pages high (11 - o) o base s fl v (omega arith) top low free room in
      (s', free-merge pages base n o s pos (omega arith) is ∙ on, c)

  -- When no block of 1024 pages is free, the block of a request of 1 to 1024 pages is given back:
  -- 2^o pages, for the least order o with room for the request, at or above the page descriptors'
  -- begin, which stands above the list heads; the block shares no page with a free block, and the
  -- free pages with it stay below 2^32. buddy_free_pages ends and makes just the pages of the
  -- block free in addition, with no page in two blocks, and nr_free rises by 2^o.
  pub buddy_free_pages-Gained :
      {s : State} {fl : Lists} (base n o : ℕ)
      → Holds s fl
      → fl 10 ≡ []
      → 0 < n
      → n ≤ 1024
      → IsOrder n o
      → pages ≤ base
      → ((q : ℕ) → base ≤ q → q < base + 2 ^ o → cover fl q ≡ 0)
      → free_pages_in fl + 2 ^ o < 2 ^ 32
      → (s' : State) × (fl' : Lists) × (buddy_free_pages pages base n s ≡ done s')
        × Holds s' fl'
        × (s'.nr_free ≡ s.nr_free + 2 ^ o)
        × ((q : ℕ) → cover fl' q ≡ cover fl q + holds_page q o base)
  buddy_free_pages-Gained {s} {fl} base n o v none_top pos small is low free room =
      let (s', run, c) = buddy_free_pages-Coalesced base n o v pos small is low free room in
      elim c [
        | gained fl' v' g ↦ (
          s',
          fl',
          run,
          v',
          omega (arith, v.count, v'.count, g (λ o p. 2 ^ o) Halves-size),
          λ q. g (holds_page q) (Halves-holds_page q),
        )
        | lost fl' top full v' g ↦ absurd (full none_top)
      ]

  -- The count after a block of 1024 pages whose buddy is free is given back.
  top_count :
      {s : State} {fl : Lists} (base n : ℕ) (pre post : List ℕ)
      → Holds s fl
      → 512 < n
      → n ≤ 1024
      → fl 10 ≡ pre ++ buddy_address pages base 10 ∷ post
      → (s' : State) × (buddy_free_pages pages base n s ≡ done s') × (s'.nr_free ≡ s.nr_free)
  unfolding merge_loop
  top_count {s} {fl} base n pre post v big small q =
      let addr = buddy_address pages base 10 in
      let (o, run, is) = size_to_order-IsOrder n (omega arith) in
      let ten : o ≡ 10 =
        omega (arith, order_below n o 10 (omega arith) is, order_above n o 9 (omega arith) is) in
      let is10 : IsOrder n 10 = rw ten at (is) in
      let join = free-merge pages base n 10 s (omega arith) (omega arith) is10 in
      elim (find_and_remove-cases pages base 10 v (omega arith)) [
        | inl (on, absent) ↦ absurd (All-mid (λ x. addr ≢ x) pre post (rw q at (absent)) refl)
        | inr (pre', post', q', on) ↦ (
          buddy_add_free (if ltb addr base then addr else base) 10 (buddy_remove_free addr s).1,
          join ∙ rw on refl,
          unfold buddy_add_free in
              omega (arith, v.count, v.small, remove_count v 10 addr (omega arith) pre' post' q'),
        )
      ]

  -- A block of 1024 pages whose buddy is free is given back, by a call for 513 to 1024 pages: it
  -- is at or above the page descriptors' begin, which stands above the list heads, shares no page
  -- with a free block, and the free pages with it stay below 2^32. buddy_free_pages ends with the
  -- lists in order and nr_free as it was: of the pages that were free and those of the block, the
  -- 1024 pages of one block are on no list.
  pub buddy_free_pages-top :
      {s : State} {fl : Lists} (base n : ℕ) (pre post : List ℕ)
      → Holds s fl
      → 512 < n
      → n ≤ 1024
      → pages ≤ base
      → fl 10 ≡ pre ++ buddy_address pages base 10 ∷ post
      → ((q : ℕ) → base ≤ q → q < base + 1024 → cover fl q ≡ 0)
      → free_pages_in fl + 1024 < 2 ^ 32
      → (s' : State) × (fl' : Lists) × (top : ℕ) × (buddy_free_pages pages base n s ≡ done s')
        × Holds s' fl'
        × (s'.nr_free ≡ s.nr_free)
        × ((q : ℕ) → cover fl' q + holds_page q 10 top ≡ cover fl q + holds_page q 10 base)
        × ((q : ℕ) → top ≤ q → q < top + 1024 → cover fl' q ≡ 0)
  buddy_free_pages-top {s} {fl} base n pre post v big small low q free room =
      let (o, run, is) = size_to_order-IsOrder n (omega arith) in
      let ten : o ≡ 10 =
        omega (arith, order_below n o 10 (omega arith) is, order_above n o 9 (omega arith) is) in
      let is10 : IsOrder n 10 = rw ten at (is) in
      let (s', on, c) =
        buddy_free_pages-Coalesced base n 10 v (omega arith) small is10 low free room in
      let (s1, on1, same) = top_count base n pre post v big small q in
      let equal : s1.nr_free ≡ s'.nr_free = ap (λ x. x.nr_free) (same_end (sym on1 ∙ on)) in
      elim c [
        | gained fl' v' g ↦
            absurd (omega (arith, equal, same, v.count, v'.count, g (λ o p. 2 ^ o) Halves-size))
        | lost fl' top full v' g ↦ (
          s',
          fl',
          top,
          on,
          v',
          omega (arith, equal, same),
          (λ q. g (holds_page q) (Halves-holds_page q)),
          λ q lo hi.
              let once = at_most_once (cover fl q) q base (v.disjoint q) (free q) in
              ground (arith, g (holds_page q) (Halves-holds_page q), once),
        )
      ]

-- Giving back more than 1024 and at most 2^31 pages changes nothing: buddy_free_pages ends with
-- the state it began with.
pub buddy_free_pages-large :
    (pages base n : ℕ) (s : State)
    → 1024 < n
    → n ≤ 2 ^ 31
    → buddy_free_pages pages base n s ≡ done s
unfolding merge_loop
buddy_free_pages-large pages base n s big small =
    let (o, run, is) = size_to_order-IsOrder n small in
    let none_left : 11 - o ≡ 0 = omega (arith, order_above n o 10 big is) in
    free-merge pages base n o s (omega arith) small is ∙ rw none_left refl
