-- ===== src/Slub/Reuse.antt =====
-- What `kmalloc` gives back after `kfree`, and what it does for the class of a whole page.
use native.Mathlib.Decide.{dec_lt}
use lab.Base.{
  ℕ, suc, ◌+◌, ◌-◌, ◌*◌, ◌/◌, ◌^◌, ◌≤◌, ◌<◌, ◌≡◌, ◌≢◌, refl, ◌∙◌, le→ltb, lt→leb, ne→==, eq→==, u32,
  Run, done, panicked, arith,
}
use lab.Buddy.Order.{pow_mono}
use lab.Slub.{
  State, put, page_size, size_to_index, find_slab, take_object, clear_page, slab_page_init,
  objects_in, thread_objects, page_address, alloc_slab_page, kmalloc, kmalloc_object, kfree,
}
use lab.Slub.Classes.{size_to_index-IsClass}

-- The state in which the first free object of the slab is taken.
unfoldable pub taken : {P : Type 0} → ℕ → State P → State P
taken sp s = record s {
  slabs =
      put sp
        (record (s.slabs sp) {
          free_list = s.next (s.slabs sp).free_list;
          used = u32 ((s.slabs sp).used + 1);
        })
        s.slabs;
}

-- The state in which the object is in front of the slab's free list.
unfoldable pub freed : {P : Type 0} → ℕ → ℕ → State P → State P
freed sp ptr s = record s {
  next = put ptr (s.slabs sp).free_list s.next;
  slabs =
      put sp (record (s.slabs sp) { free_list = ptr; used = u32 ((s.slabs sp).used + 2 ^ 32 - 1) })
        s.slabs;
}

pub kfree-freed :
    {P : Type 0} (ptr sp : ℕ) (s : State P)
    → ptr / page_size * page_size ≡ sp
    → 0 < sp
    → (s.slabs sp).cache_idx < 10
    → kfree ptr s ≡ freed sp ptr s
unfolding kfree freed
kfree-freed ptr sp s e pos valid =
    rw (ne→== ptr 0 (λ z. absurd (omega arith)), e, lt→leb 10 (s.slabs sp).cache_idx valid) refl

freed-taken :
    {P : Type 0} (ptr sp : ℕ) (s : State P)
    → (s.slabs sp).used < 2 ^ 32
    → (((freed sp ptr s).slabs sp).free_list ≡ ptr)
      × (((taken sp (freed sp ptr s)).slabs sp).free_list ≡ (s.slabs sp).free_list)
      × (((taken sp (freed sp ptr s)).slabs sp).used ≡ (s.slabs sp).used)
unfolding freed taken put
freed-taken ptr sp s word = rw (eq→== sp sp refl) (refl, rw (eq→== ptr ptr refl) refl, omega arith)

module _ {P : Type 0} (alloc_pages : ℕ → P → Run (ℕ × P)) (page_base nbase offset : ℕ) where
  kmalloc_first :
      (k size sp : ℕ) (s : State P)
      → 0 < size
      → size ≤ page_size
      → 0 < sp
      → (s.caches (size_to_index size)).pages ≡ sp
      → (s.slabs sp).free_list ≢ 0
      → kmalloc alloc_pages page_base nbase offset (suc k) size s
        ≡ done ((s.slabs sp).free_list, taken sp s)
  unfolding taken kmalloc kmalloc_object find_slab take_object
  kmalloc_first k size sp s pos small nonzero first full =
      rw
        (
          ne→== size 0 (λ e. absurd (omega arith)),
          le→ltb page_size size small,
          first,
          ne→== sp 0 (λ e. absurd (omega arith)),
          ne→== (s.slabs sp).free_list 0 full,
        )
        (ground (arith, nonzero, full))

  -- For sizes from 1 to 4096, an object of the first slab of its class, with a valid class number and a
  -- count of 32 bits in the slab's header, that is given back with `kfree` is what the next
  -- `kmalloc` of that class returns, and the slab's free list and count are then what they were.
  pub kmalloc-kfree :
      (k size ptr : ℕ) (s : State P)
      → let sp = ptr / page_size * page_size in
        0 < size
        → size ≤ page_size
        → 0 < sp
        → (s.caches (size_to_index size)).pages ≡ sp
        → (s.slabs sp).cache_idx < 10
        → (s.slabs sp).used < 2 ^ 32
        → (s' : State P) × (kmalloc alloc_pages page_base nbase offset (suc k) size (kfree ptr s)
            ≡ done (ptr, s'))
          × ((s'.slabs sp).free_list ≡ (s.slabs sp).free_list)
          × ((s'.slabs sp).used ≡ (s.slabs sp).used)
  unfolding freed
  kmalloc-kfree k size ptr s pos small nonzero first valid word =
      let sp = ptr / page_size * page_size in
      let (front, list, used) = freed-taken ptr sp s word in
      let ne : ptr ≢ 0 = λ e. absurd (omega arith) in
      (
        taken sp (freed sp ptr s),
        rw (kfree-freed ptr sp s refl nonzero valid) (
            kmalloc_first k size sp (freed sp ptr s) pos small nonzero first (rw front ne)
            ∙ rw front refl),
        list,
        used,
      )

  pub whole_page : (size : ℕ) → 2048 < size → size ≤ 4096 → size_to_index size ≡ 9
  whole_page size big small =
      let c = size_to_index-IsClass size small in
      elim (dec_lt (size_to_index size) 9) [
        | yes less ↦ absurd (omega (arith, c.enough, pow_mono (size_to_index size) 8 (omega arith)))
        | no more ↦ omega (arith, c.bounded)
      ]

  -- For a request of 2049 to 4096 bytes with no slab in the last class yet, `kmalloc` traps when the
  -- page manager gives it a page: a page has no room for such an object behind its header, the free
  -- list of the new slab is empty, and its first object is read through the null pointer.
  pub kmalloc_whole_page :
      (k size pg : ℕ) (pmm : P) (s : State P)
      → 2048 < size
      → size ≤ 4096
      → (s.caches 9).pages ≡ 0
      → (s.caches 9).obj_size ≡ 4096
      → alloc_pages 1 s.pmm ≡ done (pg, pmm)
      → 0 < pg
      → 0 < page_address alloc_pages page_base nbase offset pg
      → kmalloc alloc_pages page_base nbase offset (suc k) size s ≡ panicked
  unfolding kmalloc kmalloc_object alloc_slab_page find_slab take_object slab_page_init clear_page
      put objects_in thread_objects
  kmalloc_whole_page k size pg pmm s big small none_yet whole got pos mapped =
      let sp = page_address alloc_pages page_base nbase offset pg in
      rw
        (
          ne→== size 0 (λ e. absurd (omega arith)),
          le→ltb page_size size small,
          whole_page size big small,
          none_yet,
          got,
          whole,
          ne→== pg 0 (λ e. absurd (omega arith)),
          ne→== sp 0 (λ e. absurd (omega arith)),
          ne→== sp 0 (λ e. absurd (omega arith)),
          eq→== sp sp refl,
        )
        refl
