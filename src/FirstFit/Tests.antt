-- ===== src/FirstFit/Tests.antt =====
-- Tests of the first-fit manager, and its theorems at the small memory.
use lab.Base.{ℕ, ◌<◌, ◌≡◌, refl, inr, [], ◌∷◌, done, arith}
use lab.LinkList.{list_prev, list_del, unlink_between, set_next, set_prev}
use lab.FreeArea.{State, take_pages}
use lab.FreeArea.Blocks.{block}
use lab.FreeArea.Holds.{Holds}
use lab.FreeArea.Arena.{arena, arena_blocks, arena-Holds, arena-Separated}
use lab.FreeArea.Outcome.{Outcome, Taken}
use lab.FirstFit.{find_first, default_alloc_pages, default_free_pages}
use lab.FirstFit.Alloc.{IsFirst, default_alloc_pages-IsFirst}
use lab.FirstFit.Roundtrip.{default_alloc_pages-Taken, default_free_pages-alloc}
use lab.FirstFit.Twice.{default_alloc_pages_twice}

-- Three pages are in the second block.
default_alloc_pages-IsFirst_example :
    (out : ℕ × State) × (default_alloc_pages 3 arena ≡ done out)
    × Outcome 3 arena arena_blocks (IsFirst 3) out
default_alloc_pages-IsFirst_example = default_alloc_pages-IsFirst 3 arena-Holds (omega arith)

abbrev two_pages : ℕ × State
two_pages = (1, take_pages 1 2 arena)

alloc_two : default_alloc_pages 2 arena ≡ done two_pages
unfolding default_alloc_pages find_first
alloc_two = refl

last_behind : 1 < list_prev 0 (take_pages 1 2 arena).links
unfolding take_pages list_del unlink_between set_next set_prev
last_behind = omega arith

default_alloc_pages-Taken_example : Taken 2 arena arena_blocks two_pages
default_alloc_pages-Taken_example =
    default_alloc_pages-Taken 2 arena-Holds (omega arith) alloc_two (omega arith)

default_free_pages-alloc_example :
    (s' : State) × (default_free_pages 1 2 (take_pages 1 2 arena) ≡ done s') × Holds s' arena_blocks
default_free_pages-alloc_example =
    default_free_pages-alloc 2 arena-Holds arena-Separated (omega arith) alloc_two (omega arith)
      (inr last_behind)

-- Pages 11 to 14, freed behind the others, are handed out twice.
default_alloc_pages_twice_example :
    (s1 : State) × (s2 : State) × (s3 : State) × (default_free_pages 11 4 arena ≡ done s1)
    × (default_alloc_pages 4 s1 ≡ done (11, s2))
    × (default_alloc_pages 4 s2 ≡ done (11, s3))
default_alloc_pages_twice_example =
    default_alloc_pages_twice (block 1 2 ∷ block 5 3 ∷ []) (block 9 2) (block 11 4) arena-Holds
      (omega arith) (λ q lo hi. ground arith) (omega arith) (omega arith) (omega arith)
