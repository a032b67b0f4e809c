-- ===== src/FirstFit/Check/Tests.antt =====
-- The self-check passes at 20 free pages from page 0 on, which has the number 16.
use lab.Base.{ℕ, ◌≡◌, refl, false, true, Run, done, panicked, out_of_fuel}
use lab.LinkList.{
  set_next, set_prev, list_init, link_between, unlink_between, list_add_after, list_add,
  list_add_before, list_del, list_del_init, list_empty,
}
use lab.FreeArea.{
  State, put, init, clear_pages, release_pages, insert_loop, insert, add_block, init_memmap,
  take_pages, merge_prev, merge_next, free_pages,
}
use lab.FreeArea.Check.{
  set_head, clear_head, count_blocks, discount_blocks, extend, alloc_some, alloc_none, basic_check,
  count_free, count_again,
}
use lab.FirstFit.{
  default_init, default_init_memmap, find_first, default_alloc_pages, default_free_pages,
  default_nr_free_pages,
}
use lab.FirstFit.Check.{is_block, default_check}
use lab.Frames.{Frames, page2pa, page2ppn}

abbrev reserved : State
reserved = record {
  links = λ x. record { prev = 0; next = 0 };
  pages = λ p. record { ref = 0; reserved = true; head = false; property = 0 };
  nr_free = 0;
}

abbrev frames : Frames
frames = record { pages = 16; npage = 0x80014; nbase = 0x80000; va_pa_offset = 0xFFFFFFFF40000000 }

abbrev checked : Run State → Run ℕ
checked (done s) =
    elim (default_check frames default_alloc_pages default_free_pages default_nr_free_pages s) [
      | done (_, s') ↦ done (default_nr_free_pages s')
      | panicked ↦ panicked
      | out_of_fuel ↦ out_of_fuel
    ]
checked panicked = panicked
checked out_of_fuel = out_of_fuel

default_check_test : checked (default_init_memmap 16 20 (default_init reserved)) ≡ done 20
unfolding set_next set_prev list_init link_between unlink_between list_add_after list_add
    list_add_before list_del list_del_init list_empty put init clear_pages release_pages insert_loop
    insert add_block init_memmap take_pages merge_prev merge_next free_pages set_head clear_head
    count_blocks discount_blocks extend alloc_some alloc_none basic_check count_free count_again
    default_init default_init_memmap find_first default_alloc_pages default_free_pages
    default_nr_free_pages is_block default_check page2pa page2ppn
default_check_test = refl
