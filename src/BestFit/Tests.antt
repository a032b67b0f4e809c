-- ===== src/BestFit/Tests.antt =====
-- Tests of the best-fit manager, and its theorem at the small memory.
use lab.Base.{ℕ, ◌≡◌, done, arith}
use lab.FreeArea.{State}
use lab.FreeArea.Arena.{arena, arena_blocks, arena-Holds}
use lab.FreeArea.Outcome.{Outcome}
use lab.BestFit.{best_fit_alloc_pages}
use lab.BestFit.Alloc.{IsBest, best_fit_alloc_pages-IsBest}

-- One page comes from the first of the two smallest blocks.
best_fit_alloc_pages-IsBest_example :
    (out : ℕ × State) × (best_fit_alloc_pages 1 arena ≡ done out)
    × Outcome 1 arena arena_blocks (IsBest 1) out
best_fit_alloc_pages-IsBest_example =
    best_fit_alloc_pages-IsBest 1 arena-Holds (omega arith) (omega arith)
