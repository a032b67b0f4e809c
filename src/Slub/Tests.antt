-- ===== src/Slub/Tests.antt =====
-- Tests of the slab allocator, and its theorems over a page manager that hands out pages in order.
use lab.Base.{ℕ, ◌+◌, ◌*◌, ◌^◌, ◌≡◌, refl, ◌==◌, if◌then◌else◌, Run, done, arith}
use lab.Slub.{State, SlabPage, size_to_index, index_loop, kmalloc, kfree}
use lab.Slub.Classes.{IsClass, size_to_index-IsClass}
use lab.Slub.Reuse.{kmalloc-kfree}

-- The next page.
abbrev next_page : ℕ → ℕ → Run (ℕ × ℕ)
next_page n p = done (p, p + n)

-- Class 3 has one page, at 8192, with a free object at 8256.
abbrev slab : SlabPage
slab = record { next = 0; free_list = 8256; used = 2; obj_per_page = 63; cache_idx = 3 }

abbrev some_slabs : State ℕ
some_slabs = record {
  caches = λ i. record { obj_size = 8 * 2 ^ i; pages = if i == 3 then 8192 else 0 };
  slabs = λ a. slab;
  next = λ o. 0;
  pmm = 1;
}

size_to_index-IsClass_example : IsClass 100 (size_to_index 100)
size_to_index-IsClass_example = size_to_index-IsClass 100 (omega arith)

kmalloc-kfree_example :
    (s' : State ℕ) × (kmalloc next_page 1 524288 0 1 64 (kfree 8320 some_slabs) ≡ done (8320, s'))
    × ((s'.slabs 8192).free_list ≡ 8256)
    × ((s'.slabs 8192).used ≡ 2)
kmalloc-kfree_example =
    kmalloc-kfree next_page 1 524288 0 0 64 8320 some_slabs (omega arith) (omega arith)
      (omega arith) (unfold size_to_index index_loop in refl) (omega arith) (omega arith)
