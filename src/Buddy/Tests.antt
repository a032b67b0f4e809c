-- ===== src/Buddy/Tests.antt =====
-- Tests of the buddy manager, and its theorems at small memories whose page 0 has the number 16.
use lab.Base.{ℕ, zero, suc, ◌+◌, ◌^◌, ◌≤◌, ◌<◌, ◌≡◌, refl, true, false, [], ◌∷◌, done, arith}
use lab.Buddy.{
  State, buddy_init, buddy_init_memmap, size_to_order, buddy_add_free, buddy_alloc_pages,
  buddy_address, buddy_free_pages,
}
use lab.Buddy.Lists.{Lists, update, weigh, holds_page, free_pages_in, cover, weigh-empty}
use lab.Buddy.Holds.{Holds}
use lab.Buddy.Init.{buddy_init-Holds}
use lab.Buddy.Add.{add-Holds, add_weigh}
use lab.Buddy.Order.{IsOrder, size_to_order-IsOrder}
use lab.Buddy.Alloc.{Outcome, buddy_alloc_pages-Outcome}
use lab.Buddy.Coalesce.{Coalesced}
use lab.Buddy.Region.{Grown, buddy_init_memmap-Grown}
use lab.Buddy.Free.{
  buddy_free_pages-Coalesced, buddy_free_pages-Gained, buddy_free_pages-top, buddy_free_pages-large,
}

abbrev blank : State
blank = record {
  links = λ x. record { prev = 0; next = 0 };
  order = λ p. 0;
  base = λ p. 0;
  reserved = λ p. false;
  nr_free = 0;
  max_order_inited = 0;
}

abbrev fresh : State
fresh = buddy_init blank

fresh-Holds : Holds fresh (λ o. [])
fresh-Holds = buddy_init-Holds blank

-- One free block of four pages at 20.
abbrev four : State
four = buddy_add_free 20 2 fresh

abbrev four_blocks : Lists
four_blocks = update 2 (20 ∷ []) (λ o. [])

fits : (o : ℕ) → 2 ^ o ≤ 1024 → free_pages_in (λ o. []) + 2 ^ o < 2 ^ 32
fits o h = omega (arith, weigh-empty (λ o p. 2 ^ o))

four-Holds : Holds four four_blocks
four-Holds =
    add-Holds fresh-Holds 2 20 (omega arith) (omega arith) (λ q l h. weigh-empty (holds_page q))
      (fits 2 (omega arith))

four_weigh : (w : ℕ → ℕ → ℕ) → weigh w four_blocks ≡ weigh w (λ o. []) + w 2 20
four_weigh =
    add_weigh fresh-Holds 2 20 (omega arith) (omega arith) (λ q l h. weigh-empty (holds_page q))
      (fits 2 (omega arith))

four_free : (q : ℕ) → 16 ≤ q → q < 16 + 2 ^ 2 → cover four_blocks q ≡ 0
four_free q l h = ground (arith, four_weigh (holds_page q), weigh-empty (holds_page q))

four_room : free_pages_in four_blocks + 2 ^ 2 < 2 ^ 32
four_room = omega (arith, four_weigh (λ o p. 2 ^ o), weigh-empty (λ o p. 2 ^ o))

four-IsOrder : IsOrder 4 2
four-IsOrder = record { enough = omega arith; least = below }
  where
    below : (m : ℕ) → m < 2 → 2 ^ m < 4
    below zero h = omega arith
    below (suc zero) h = omega arith
    below (suc (suc m)) h = absurd (omega arith)

-- One free block of 1024 pages at 1040, the buddy of the one at 16.
abbrev top : State
top = buddy_add_free 1040 10 fresh

abbrev top_blocks : Lists
top_blocks = update 10 (1040 ∷ []) (λ o. [])

top-Holds : Holds top top_blocks
top-Holds =
    add-Holds fresh-Holds 10 1040 (omega arith) (omega arith) (λ q l h. weigh-empty (holds_page q))
      (fits 10 (omega arith))

top_weigh : (w : ℕ → ℕ → ℕ) → weigh w top_blocks ≡ weigh w (λ o. []) + w 10 1040
top_weigh =
    add_weigh fresh-Holds 10 1040 (omega arith) (omega arith) (λ q l h. weigh-empty (holds_page q))
      (fits 10 (omega arith))

-- Reserved descriptors in place of the others.
abbrev reserved : State
reserved = buddy_init (record blank { reserved = λ p. true })

buddy_init_memmap-Grown_example :
    (s' : State) × (buddy_init_memmap 16 3000 reserved ≡ done s') × Grown (λ o. []) 16 3000 s'
buddy_init_memmap-Grown_example =
    buddy_init_memmap-Grown 16 3000 (buddy_init-Holds (record blank { reserved = λ p. true }))
      (omega arith) (omega arith) (λ q lo hi. weigh-empty (holds_page q))
      (λ q lo hi. unfold buddy_init in refl) (omega (arith, weigh-empty (λ o p. 2 ^ o)))

size_to_order-IsOrder_example : (o : ℕ) × (size_to_order 5 ≡ done o) × IsOrder 5 o
size_to_order-IsOrder_example = size_to_order-IsOrder 5 (omega arith)

-- One page out of the block of four.
buddy_alloc_pages-Outcome_example :
    (out : ℕ × State) × (buddy_alloc_pages 1 four ≡ done out) × Outcome 1 four four_blocks out
unfolding buddy_add_free buddy_init
buddy_alloc_pages-Outcome_example = buddy_alloc_pages-Outcome 1 four-Holds (omega arith)

-- The four pages before the free block are given back.
buddy_free_pages-Coalesced_example :
    (s' : State) × (buddy_free_pages 16 16 4 four ≡ done s') × Coalesced 2 16 four_blocks s'
buddy_free_pages-Coalesced_example =
    buddy_free_pages-Coalesced 16 (omega arith) 16 4 2 four-Holds (omega arith) (omega arith)
      four-IsOrder (omega arith) four_free four_room

buddy_free_pages-Gained_example :
    (s' : State) × (fl' : Lists) × (buddy_free_pages 16 16 4 four ≡ done s')
    × Holds s' fl'
    × (s'.nr_free ≡ four.nr_free + 2 ^ 2)
    × ((q : ℕ) → cover fl' q ≡ cover four_blocks q + holds_page q 2 16)
buddy_free_pages-Gained_example =
    buddy_free_pages-Gained 16 (omega arith) 16 4 2 four-Holds refl (omega arith) (omega arith)
      four-IsOrder (omega arith) four_free four_room

buddy_free_pages-top_example :
    (s' : State) × (fl' : Lists) × (lost_at : ℕ) × (buddy_free_pages 16 16 1024 top ≡ done s')
    × Holds s' fl'
    × (s'.nr_free ≡ top.nr_free)
    × ((q : ℕ) → cover fl' q + holds_page q 10 lost_at ≡ cover top_blocks q + holds_page q 10 16)
    × ((q : ℕ) → lost_at ≤ q → q < lost_at + 1024 → cover fl' q ≡ 0)
buddy_free_pages-top_example =
    buddy_free_pages-top 16 (omega arith) 16 1024 [] [] top-Holds (omega arith) (omega arith)
      (omega arith) (unfold buddy_address in refl)
      (λ q lo hi. ground (arith, top_weigh (holds_page q), weigh-empty (holds_page q)))
      (omega (arith, top_weigh (λ o p. 2 ^ o), weigh-empty (λ o p. 2 ^ o)))

buddy_free_pages-large_example : buddy_free_pages 16 16 1025 four ≡ done four
buddy_free_pages-large_example = buddy_free_pages-large 16 16 1025 four (omega arith) (omega arith)
