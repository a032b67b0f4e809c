-- ===== src/BestFit/Check/Tests.antt =====
-- The self-check passes at 20 free pages from page 0 on, which has the number 16.
use lab.Base.{ℕ, ◌≡◌, refl, false, true, Run, done, panicked, out_of_fuel}
use lab.LinkList.{
  set_next, set_prev, list_init, link_between, unlink_between, list_add_after, list_add,
  list_add_before, list_del, list_del_init, list_empty,
}
use lab.FreeArea.{
  State, put, init, clear_pages, release_pages, insert_loop, insert, add_block, init_memmap,
  take_pages, merge_prev, merge_next, free_pages,
}
use lab.FreeArea.Check.{
  set_head, clear_head, count_blocks, discount_blocks, extend, alloc_some, alloc_none, basic_check,
  count_free, count_again,
}
use lab.BestFit.{
  best_fit_init, best_fit_init_memmap, find_best, best_fit_alloc_pages, best_fit_free_pages,
  best_fit_nr_free_pages,
}
use lab.BestFit.Check.{best_fit_check}
use lab.Frames.{Frames, page2pa, page2ppn}

abbrev reserved : State
reserved = record {
  links = λ x. record { prev = 0; next = 0 };
  pages = λ p. record { ref = 0; reserved = true; head = false; property = 0 };
  nr_free = 0;
}

abbrev frames : Frames
frames = record { pages = 16; npage = 0x80014; nbase = 0x80000; va_pa_offset = 0xFFFFFFFF40000000 }

abbrev checked : Run State → Run ℕ
checked (done s) =
    elim (best_fit_check frames best_fit_alloc_pages best_fit_free_pages best_fit_nr_free_pages s) [
      | done (_, s') ↦ done (best_fit_nr_free_pages s')
      | panicked ↦ panicked
      | out_of_fuel ↦ out_of_fuel
    ]
checked panicked = panicked
checked out_of_fuel = out_of_fuel

best_fit_check_test : checked (best_fit_init_memmap 16 20 (best_fit_init reserved)) ≡ done 20
unfolding set_next set_prev list_init link_between unlink_between list_add_after list_add
    list_add_before list_del list_del_init list_empty put init clear_pages release_pages insert_loop
    insert add_block init_memmap take_pages merge_prev merge_next free_pages set_head clear_head
    count_blocks discount_blocks extend alloc_some alloc_none basic_check count_free count_again
    best_fit_init best_fit_init_memmap find_best best_fit_alloc_pages best_fit_free_pages
    best_fit_nr_free_pages best_fit_check page2pa page2ppn
best_fit_check_test = refl
