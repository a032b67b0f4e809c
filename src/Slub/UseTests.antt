-- ===== src/Slub/UseTests.antt =====
-- The slab allocator used on a machine of 530 page frames, after `page_init` with the buddy manager.
use lab.Base.{
  ℕ, ◌+◌, ◌≡◌, ◌≢◌, [], ◌∷◌, length, inl, inr, false, ◌==◌, if◌then◌else◌, refl, Run, done,
  panicked, ne→==, arith,
}
use lab.Buddy
use lab.Frames
use lab.LinkList
use lab.Pmm
use lab.Pmm.{boot_frames, nbase, physical_memory_offset, page_init, init_pmm_manager}
use lab.Pmm.Boot.{Layout, frame_count}
use lab.Pmm.Managers.{buddy_pmm_manager, set_buddy_reserved}
use lab.Slub
use lab.Slub.{State, kmalloc, kfree, ncache, slub_init, size_to_index, page_address}
use lab.Slub.Backing.{buddy_supplier}
use lab.Slub.Booted.{boot_mapped, stocked, booted-Separate, booted-kmalloc}
use lab.Slub.Check.{alloc_classes, slub_check}
use lab.Slub.Failing.{slub_check-panics}
use lab.Slub.Freed.{give_back, kfree-IsValid}
use lab.Slub.Serve.{Result, kmalloc-Served}
use lab.Slub.Sound.{Sound, Reach-Sound}
use lab.Slub.Use.{Area, Outside, Separate, allocate, release, write, Reach, start, later}
use lab.Slub.Valid.{IsValid}

abbrev blank : Buddy.State
blank = record {
  links = λ x. record { prev = 0; next = 0 };
  order = λ p. 0;
  base = λ p. 0;
  reserved = λ p. false;
  nr_free = 0;
  max_order_inited = 0;
}

abbrev kernel_end : ℕ
kernel_end = 0xFFFFFFFFC0209000

abbrev memory_end : ℕ
memory_end = 0x80000000 + 0x212000

abbrev memory : Layout kernel_end memory_end
memory = record {
  small = omega arith;
  dram = omega arith;
  kernel = omega arith;
  mapped = omega arith;
}

-- `page_init`, and what it leaves.
abbrev boot : Run (Frames.Frames × Buddy.State)
boot =
    page_init buddy_pmm_manager 16 kernel_end 0x80000000 0x212000
      (init_pmm_manager buddy_pmm_manager blank)

abbrev booted : Buddy.State
booted = elim boot [ done r ↦ r.1 | _ ↦ blank ]

boot_runs : boot ≡ done (boot_frames 16 memory_end, booted)
unfolding page_init Frames.paddr Frames.round_up boot_frames Frames.pa2page Buddy.buddy_init_memmap
    Buddy.buddy_clear_pages Pmm.reserve_pages set_buddy_reserved Buddy.put Buddy.split_region
    Buddy.largest_order
boot_runs = refl

abbrev no_slabs : State Buddy.State
no_slabs = record {
  caches = λ i. record { obj_size = 0; pages = 0 };
  slabs = λ a. record { next = 0; free_list = 0; used = 0; obj_per_page = 0; cache_idx = 0 };
  next = λ o. 0;
  pmm = booted;
}

abbrev call : ℕ → State Buddy.State → Run (ℕ × State Buddy.State)
call size s = kmalloc (Pmm.alloc_pages buddy_pmm_manager) 16 nbase physical_memory_offset 2 size s

abbrev left_by : Run (ℕ × State Buddy.State) → State Buddy.State
left_by r = elim r [ done x ↦ x.1 | _ ↦ no_slabs ]

-- 64 bytes, 100 bytes, the first area given back and 33 bytes: the third call gets the first area.
abbrev s1 : State Buddy.State
s1 = left_by (call 64 (slub_init no_slabs))

abbrev s2 : State Buddy.State
s2 = left_by (call 100 s1)

abbrev s3 : State Buddy.State
s3 = kfree 18446744072637980608 s2

abbrev s4 : State Buddy.State
s4 = left_by (call 33 s3)

abbrev a1 : Area
a1 = record { ptr = 18446744072637980608; size = 64 }

abbrev a2 : Area
a2 = record { ptr = 18446744072637972352; size = 100 }

abbrev a3 : Area
a3 = record { ptr = 18446744072637980608; size = 33 }

calls :
    (call 64 (slub_init no_slabs) ≡ done (18446744072637980608, s1))
    × (call 100 s1 ≡ done (18446744072637972352, s2))
    × (call 33 s3 ≡ done (18446744072637980608, s4))
unfolding kmalloc Slub.kmalloc_object Slub.find_slab slub_init Slub.init_caches Slub.put
    Slub.size_to_index Slub.index_loop Slub.alloc_slab_page Pmm.alloc_pages Buddy.buddy_alloc_pages
    page_init Frames.paddr Frames.round_up boot_frames Frames.pa2page Buddy.buddy_init_memmap
    Buddy.add_max_blocks Buddy.buddy_add_free Buddy.buddy_clear_pages Buddy.buddy_remove_free
    Buddy.find_order Buddy.largest_order Buddy.order_loop Buddy.put Buddy.size_to_order
    Buddy.split_block Buddy.split_region Frames.ppn Frames.round_down LinkList.link_between
    LinkList.list_add LinkList.list_add_after LinkList.list_del LinkList.list_empty
    LinkList.set_next LinkList.set_prev LinkList.unlink_between Pmm.init_memmap Pmm.reserve_pages
    Slub.aligned Slub.clear_page Slub.objects_in Slub.page_address Slub.slab_page_init
    Slub.take_object Slub.thread_objects set_buddy_reserved Pmm.init_pmm_manager Buddy.buddy_init
    Buddy.init_lists LinkList.list_init kfree
calls = (refl, refl, refl)

-- The third area is written at its ninth byte.
abbrev s5 : State Buddy.State
s5 = record s4 { next = λ x. if x == 18446744072637980616 then 7 else s4.next x }

used :
    Reach
      (Pmm.alloc_pages buddy_pmm_manager)
      16
      nbase
      physical_memory_offset
      no_slabs
      s5
      (a3 ∷ a2 ∷ [])
used =
    later
      (later
        (later
          (later
            (later start
              (allocate 2 64 _ (omega arith) (omega arith) calls.0 (λ e. absurd (omega arith))))
            (allocate 2 100 _ (omega arith) (omega arith) calls.1 (λ e. absurd (omega arith))))
          (release (a2 ∷ []) [] a1 refl))
        (allocate 2 33 _ (omega arith) (omega arith) calls.2 (λ e. absurd (omega arith))))
      (write _ (λ x out. rw (ne→== x 18446744072637980616 (λ e. outside x out.0 e)) refl))
  where
    outside : (x : ℕ) → Outside x a3 → x ≢ 18446744072637980616
    outside x (inl h) e = absurd (omega arith)
    outside x (inr h) e = absurd (omega arith)

booted-Separate_example : Separate (a3 ∷ a2 ∷ [])
booted-Separate_example =
    booted-Separate 16 kernel_end 0x80000000 0x212000 blank no_slabs (omega arith) (omega arith)
      (omega arith) memory (omega arith) (omega arith) boot_runs s5 (a3 ∷ a2 ∷ []) used

booted-kmalloc_example :
    (k : ℕ) × (r : ℕ × State Buddy.State) × (kmalloc
        (Pmm.alloc_pages buddy_pmm_manager)
        16
        nbase
        physical_memory_offset
        k
        2000
        s5
      ≡ done r)
booted-kmalloc_example =
    booted-kmalloc 16 kernel_end 0x80000000 0x212000 blank no_slabs (omega arith) (omega arith)
      (omega arith) memory (omega arith) (omega arith) boot_runs s5 (a3 ∷ a2 ∷ []) 2000 used
      (omega arith) (omega arith)

-- What is known of the state then.
abbrev known :
    Sound
      (Pmm.alloc_pages buddy_pmm_manager)
      16
      nbase
      physical_memory_offset
      (buddy_supplier 16 (frame_count memory_end))
      (boot_mapped 16 memory_end (omega arith) (omega arith))
      s5
      (a3 ∷ a2 ∷ [])
known =
    Reach-Sound (Pmm.alloc_pages buddy_pmm_manager) 16 nbase physical_memory_offset
      (buddy_supplier 16 (frame_count memory_end))
      (boot_mapped 16 memory_end (omega arith) (omega arith)) []
      (stocked 16 kernel_end 0x80000000 0x212000 blank no_slabs (omega arith) (omega arith)
        (omega arith) memory (omega arith) (omega arith) boot_runs)
      used

kmalloc-Served_example :
    Result
      (Pmm.alloc_pages buddy_pmm_manager)
      16
      nbase
      physical_memory_offset
      (buddy_supplier 16 (frame_count memory_end))
      (boot_mapped 16 memory_end (omega arith) (omega arith))
      (length (known.ghost.lists (size_to_index 2000)) + 1)
      2000
      s5
      known.ghost
kmalloc-Served_example =
    kmalloc-Served (Pmm.alloc_pages buddy_pmm_manager) 16 nbase physical_memory_offset
      (buddy_supplier 16 (frame_count memory_end))
      (boot_mapped 16 memory_end (omega arith) (omega arith))
      (length (known.ghost.lists (size_to_index 2000)) + 1) 2000 s5 known.ghost known.given
      known.order (omega arith) (omega arith) (omega arith)

kfree-IsValid_example :
    IsValid
      (kfree 18446744072637972352 s5)
      (give_back 18446744072637972352 (18446744072637980608 ∷ []) known.ghost)
kfree-IsValid_example =
    kfree-IsValid s5 known.ghost known.order.valid 18446744072637972352 (18446744072637980608 ∷ [])
      [] known.held

slub_check-panics_example :
    (alloc_classes
        (Pmm.alloc_pages buddy_pmm_manager)
        16
        nbase
        physical_memory_offset
        2
        ncache
        0
        []
        (slub_init no_slabs)
      ≡ panicked)
    × (slub_check
          (Pmm.alloc_pages buddy_pmm_manager)
          16
          nbase
          physical_memory_offset
          2
          (slub_init no_slabs)
        ≡ panicked)
slub_check-panics_example =
    slub_check-panics (Pmm.alloc_pages buddy_pmm_manager) 16 nbase physical_memory_offset 0
      (buddy_supplier 16 (frame_count memory_end))
      (boot_mapped 16 memory_end (omega arith) (omega arith)) no_slabs []
      (stocked 16 kernel_end 0x80000000 0x212000 blank no_slabs (omega arith) (omega arith)
        (omega arith) memory (omega arith) (omega arith) boot_runs)
