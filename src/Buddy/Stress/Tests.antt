-- ===== src/Buddy/Stress/Tests.antt =====
-- The self-check of the buddy manager at 16 free pages from page 0 on, which has the number 16.
use lab.Base.{
  ℕ, zero, suc, ◌^◌, ◌≤◌, ◌<◌, ◌≡◌, refl, false, All, [], List, ◌∷◌, Run, done, panicked,
  out_of_fuel, arith,
}
use lab.LinkList.{
  set_next, set_prev, list_init, link_between, unlink_between, list_add_after, list_add, list_del,
  list_empty,
}
use lab.LinkList.Ring.{Ring}
use lab.Buddy.{
  State, put, init_lists, buddy_init, order_loop, size_to_order, buddy_add_free, buddy_remove_free,
  find_order, split_block, buddy_alloc_pages, find_block, buddy_address, buddy_find_and_remove,
  merge_loop, buddy_free_pages, buddy_nr_free_pages,
}
use lab.Buddy.Lists.{
  Lists, update, free_pages_in, cover, sum_over, weigh, weigh-update, holds_page, weigh-empty,
}
use lab.Buddy.Holds.{Desc, Holds}
use lab.Buddy.Check.{free_is, free_at_most, free_if, buddy_deterministic_tests, buddy_check}
use lab.Buddy.Stress.{buddy_check-Holds}

abbrev blank : State
blank = record {
  links = λ x. record { prev = 0; next = 0 };
  order = λ p. 0;
  base = λ p. 0;
  reserved = λ p. false;
  nr_free = 0;
  max_order_inited = 0;
}

abbrev sixteen : State
sixteen = buddy_add_free 16 4 (buddy_init blank)

abbrev state_of : Run (Unit {0} × State) → State
state_of (done r) = r.1
state_of panicked = blank
state_of out_of_fuel = blank

abbrev after : State
after =
    state_of (
      buddy_deterministic_tests buddy_alloc_pages (buddy_free_pages 16) buddy_nr_free_pages sixteen)

abbrev one_block : Lists
one_block = update 4 (16 ∷ []) (λ o. [])

sixteen_pass :
    buddy_deterministic_tests buddy_alloc_pages (buddy_free_pages 16) buddy_nr_free_pages sixteen
    ≡ done (tt, after)
unfolding set_next set_prev list_init link_between unlink_between list_add_after list_add list_del
    list_empty put init_lists buddy_init order_loop size_to_order buddy_add_free buddy_remove_free
    find_order split_block buddy_alloc_pages find_block buddy_address buddy_find_and_remove
    merge_loop buddy_free_pages buddy_nr_free_pages free_is free_at_most free_if
    buddy_deterministic_tests
sixteen_pass = refl

-- The tests have left the one block that they began with.
after-links : (o : ℕ) → o < 11 → Ring after.links o (one_block o)
unfolding set_next set_prev list_init link_between unlink_between list_add_after list_add list_del
    list_empty put init_lists buddy_init order_loop size_to_order buddy_add_free buddy_remove_free
    find_order split_block buddy_alloc_pages find_block buddy_address buddy_find_and_remove
    merge_loop buddy_free_pages buddy_nr_free_pages free_is free_at_most free_if
    buddy_deterministic_tests
after-links zero h = record { distinct = (tt, tt); links = ((refl, refl), tt) }
after-links (suc zero) h = record { distinct = (tt, tt); links = ((refl, refl), tt) }
after-links (suc (suc zero)) h = record { distinct = (tt, tt); links = ((refl, refl), tt) }
after-links (suc (suc (suc zero))) h = record { distinct = (tt, tt); links = ((refl, refl), tt) }
after-links (suc (suc (suc (suc zero)))) h = record {
  distinct = ((omega arith, tt), (tt, tt));
  links = ((refl, refl), ((refl, refl), tt));
}
after-links (suc (suc (suc (suc (suc zero))))) h = record {
  distinct = (tt, tt);
  links = ((refl, refl), tt);
}
after-links (suc (suc (suc (suc (suc (suc zero)))))) h = record {
  distinct = (tt, tt);
  links = ((refl, refl), tt);
}
after-links (suc (suc (suc (suc (suc (suc (suc zero))))))) h = record {
  distinct = (tt, tt);
  links = ((refl, refl), tt);
}
after-links (suc (suc (suc (suc (suc (suc (suc (suc zero)))))))) h = record {
  distinct = (tt, tt);
  links = ((refl, refl), tt);
}
after-links (suc (suc (suc (suc (suc (suc (suc (suc (suc zero))))))))) h = record {
  distinct = (tt, tt);
  links = ((refl, refl), tt);
}
after-links (suc (suc (suc (suc (suc (suc (suc (suc (suc (suc zero)))))))))) h = record {
  distinct = (tt, tt);
  links = ((refl, refl), tt);
}
after-links (suc (suc (suc (suc (suc (suc (suc (suc (suc (suc (suc o))))))))))) h =
    absurd (omega arith)

after-Descs : (o : ℕ) → o < 11 → All (Desc after o) (one_block o)
unfolding set_next set_prev list_init link_between unlink_between list_add_after list_add list_del
    list_empty put init_lists buddy_init order_loop size_to_order buddy_add_free buddy_remove_free
    find_order split_block buddy_alloc_pages find_block buddy_address buddy_find_and_remove
    merge_loop buddy_free_pages buddy_nr_free_pages free_is free_at_most free_if
    buddy_deterministic_tests
after-Descs zero h = tt
after-Descs (suc zero) h = tt
after-Descs (suc (suc zero)) h = tt
after-Descs (suc (suc (suc zero))) h = tt
after-Descs (suc (suc (suc (suc zero)))) h =
    (record { above = omega arith; order = refl; base = refl }, tt)
after-Descs (suc (suc (suc (suc (suc zero))))) h = tt
after-Descs (suc (suc (suc (suc (suc (suc zero)))))) h = tt
after-Descs (suc (suc (suc (suc (suc (suc (suc zero))))))) h = tt
after-Descs (suc (suc (suc (suc (suc (suc (suc (suc zero)))))))) h = tt
after-Descs (suc (suc (suc (suc (suc (suc (suc (suc (suc zero))))))))) h = tt
after-Descs (suc (suc (suc (suc (suc (suc (suc (suc (suc (suc zero)))))))))) h = tt
after-Descs (suc (suc (suc (suc (suc (suc (suc (suc (suc (suc (suc o))))))))))) h =
    absurd (omega arith)

after_count : after.nr_free ≡ 16
unfolding set_next set_prev list_init link_between unlink_between list_add_after list_add list_del
    list_empty put init_lists buddy_init order_loop size_to_order buddy_add_free buddy_remove_free
    find_order split_block buddy_alloc_pages find_block buddy_address buddy_find_and_remove
    merge_loop buddy_free_pages buddy_nr_free_pages free_is free_at_most free_if
    buddy_deterministic_tests
after_count = refl

one_weigh : (w : ℕ → ℕ → ℕ) → weigh w one_block ≡ w 4 16
unfolding sum_over
one_weigh w = omega (arith, weigh-update w 4 (16 ∷ []) (λ o. []) (omega arith), weigh-empty w)

after-Holds : Holds after one_block
after-Holds = record {
  rings = after-links;
  descs = after-Descs;
  disjoint = λ q. ground (arith, one_weigh (holds_page q));
  count = omega (arith, after_count, one_weigh (λ o p. 2 ^ o));
  small = omega (arith, one_weigh (λ o p. 2 ^ o));
}

buddy_check-Holds_example :
    (s' : State) × (fl' : Lists) × (buddy_check buddy_alloc_pages
        (buddy_free_pages 16)
        buddy_nr_free_pages
        sixteen
      ≡ done (tt, s'))
    × Holds s' fl'
    × ((q : ℕ) → cover fl' q ≤ cover one_block q)
    × (free_pages_in fl' ≤ free_pages_in one_block)
buddy_check-Holds_example =
    buddy_check-Holds 16 sixteen (omega arith) sixteen_pass after-Holds
      (omega (arith, one_weigh (λ o p. 2 ^ o))) (λ q some. ground (arith, one_weigh (holds_page q)))

-- A block of four pages from page 1 on, as `buddy_init_memmap` makes one of a region that begins there:
-- a page of it is taken and given back.
abbrev unaligned : Run State
unaligned = elim (buddy_alloc_pages 1 (buddy_add_free 17 2 (buddy_init blank))) [
  | done (p, s) ↦ buddy_free_pages 16 p 1 s
  | panicked ↦ panicked
  | out_of_fuel ↦ out_of_fuel
]

abbrev lists_of : Run State → List ℕ
lists_of (done s) = (s.links 0).next ∷ (s.links 1).next ∷ (s.links 2).next ∷ s.nr_free ∷ []
lists_of panicked = []
lists_of out_of_fuel = []

-- All four pages are free again, but the blocks are not joined: none is on list 2, which is linked to
-- itself. The buddy of page 1 is page 0.
unaligned_test : lists_of unaligned ≡ 17 ∷ 19 ∷ 2 ∷ 4 ∷ []
unfolding set_next set_prev list_init link_between unlink_between list_add_after list_add list_del
    list_empty put init_lists buddy_init order_loop size_to_order buddy_add_free buddy_remove_free
    find_order split_block buddy_alloc_pages find_block buddy_address buddy_find_and_remove
    merge_loop buddy_free_pages buddy_nr_free_pages free_is free_at_most free_if
    buddy_deterministic_tests
unaligned_test = refl
