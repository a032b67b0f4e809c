-- ===== src/FreeArea/Tests.antt =====
-- Tests of the shared operations, and their theorems at the small memory.
use lab.Base.{◌≡◌, inl, inr, ◌++◌, [], ◌∷◌, List, done, arith}
use lab.LinkList.{list_prev}
use lab.FreeArea.{State, free_pages, init_memmap}
use lab.FreeArea.Blocks.{Block, block}
use lab.FreeArea.Holds.{Holds}
use lab.FreeArea.Arena.{arena, arena_blocks, arena-Holds, reserved_arena, reserved-Holds}
use lab.FreeArea.Coalesce.{Returned, free_pages-Returned}
use lab.FreeArea.Free.{init_memmap-Holds}
use lab.FreeArea.Tail.{free_pages-at_end}

-- Pages 3 and 4 lie between two free blocks.
free_pages-Returned_example :
    (s' : State) × (free_pages 3 2 arena ≡ done s') × Returned (block 3 2) arena arena_blocks s'
free_pages-Returned_example =
    free_pages-Returned (block 3 2) arena-Holds (omega arith) (omega arith) (omega arith)
      (inl (omega arith), (inr (omega arith), (inr (omega arith), tt))) (inr (omega arith))
      (omega arith) (λ q lo hi. ground arith)

-- The reserved pages 3 and 4 of another memory become a block between two others.
init_memmap-Holds_example :
    (s' : State) × (pre post : List Block) × (init_memmap 3 2 reserved_arena ≡ done s')
    × (arena_blocks ≡ pre ++ post)
    × Holds s' (pre ++ block 3 2 ∷ post)
init_memmap-Holds_example =
    init_memmap-Holds (block 3 2) reserved-Holds (omega arith) (omega arith)
      (inl (omega arith), (inr (omega arith), (inr (omega arith), tt))) (inr (omega arith))
      (omega arith) (λ q lo hi. ground arith)

-- Page 11 follows the last free block at once, and stands behind all of them.
free_pages-at_end_example :
    (s' : State) × (free_pages 11 1 arena ≡ done s')
    × (list_prev 11 s'.links ≡ 11)
    × ((bs : List Block) → ¬ Holds s' bs)
free_pages-at_end_example =
    free_pages-at_end (block 1 2 ∷ block 5 3 ∷ []) (block 9 2) (block 11 1) arena-Holds
      (omega arith) (λ q lo hi. ground arith) (omega arith)
