-- ===== src/Slub.antt =====
-- kern/mm/slub.c: a slab allocator over the page manager. Addresses are numbers, `NULL` is 0, and
-- memory is seen in two ways: `slabs a` is the page header at address a, `next o` the first word of
-- the free object at o. A header and an object never share a word (Slub/Layout). A load through the
-- null pointer traps and stops the kernel, like a failed assertion, as the outcome `panicked`.
--
-- The page manager is a parameter: its state is of type P, and `alloc_pages` is the operation that
-- kern/mm/pmm.c passes on. `page_base` is the number of the first page descriptor, `nbase` the number
-- of the first page frame, and `offset` the distance from physical to virtual addresses.
pub mod Added
pub mod Alloc
pub mod Apart
pub mod Areas
pub mod Backing
pub mod Booted
pub mod Caches
pub mod Chain
pub mod Check
pub mod Classes
pub mod Fuel
pub mod Failing
pub mod Freed
pub mod Layout
pub mod Objects
pub mod Order
pub mod Page
pub mod Paths
pub mod Reuse
pub mod Serve
pub mod Sound
pub mod Supply
pub mod Thread
pub mod Use
pub mod Valid
mod Tests
mod UseTests
pub use lab.Frames.{page_size}
use lab.Base.{
  ℕ, zero, suc, ◌+◌, ◌-◌, ◌*◌, ◌/◌, ◌^◌, ◌&&◌, ltb, leb, ◌==◌, if◌then◌else◌, u32, u64, sub64, Run,
  done, panicked, out_of_fuel, ◌>>=◌,
}

-- `SLUB_NCACHE`.
abbrev pub ncache : ℕ
ncache = 10

-- `sizeof(slab_page_t)`: two pointers and three `unsigned`, padded to the alignment of a pointer.
abbrev pub header_size : ℕ
header_size = 32

pub record SlabPage : Type 0 where
  pub next : ℕ
  pub free_list : ℕ
  pub used : ℕ
  pub obj_per_page : ℕ
  pub cache_idx : ℕ

pub record Cache : Type 0 where
  pub obj_size : ℕ
  pub pages : ℕ

pub record State (P : Type 0) : Type 0 where
  pub caches : ℕ → Cache
  pub slabs : ℕ → SlabPage
  pub next : ℕ → ℕ
  pub pmm : P

unfoldable pub put {ℓ} : {A : Type ℓ} → ℕ → A → (ℕ → A) → ℕ → A
put p v f = λ q. if q == p then v else f q

-- `while (s < size && i < SLUB_NCACHE - 1) …` with `SLUB_NCACHE - 1 - i` rounds left.
unfoldable pub index_loop : ℕ → ℕ → ℕ → ℕ → ℕ
index_loop zero size s i = i
index_loop (suc k) size s i =
    let rest = index_loop k size (s * 2) (i + 1) in if ltb s size then rest else i

unfoldable pub size_to_index : ℕ → ℕ
size_to_index size = index_loop (ncache - 1) size 8 0

-- `(base + obj_size - 1) & ~(obj_size - 1)` for a power of two.
unfoldable pub aligned : ℕ → ℕ → ℕ
aligned sp obj_size = (sp + header_size + obj_size - 1) / obj_size * obj_size

-- `for (unsigned i = 0; i < sp->obj_per_page; i++) …` with k rounds left: the last object and the
-- memory.
unfoldable pub thread_objects : ℕ → ℕ → ℕ → ℕ → ℕ → (ℕ → ℕ) → ℕ × (ℕ → ℕ)
thread_objects zero base size i prev next = (prev, next)
thread_objects (suc k) base size i prev next =
    let o = base + i * size in thread_objects k base size (i + 1) o (put o prev next)

-- The objects of a page of the given class.
unfoldable pub objects_in : ℕ → ℕ
objects_in obj_size = (page_size - header_size) / obj_size

unfoldable pub slab_page_init : {P : Type 0} → ℕ → ℕ → ℕ → State P → State P
slab_page_init sp obj_size cache_idx s =
    let (last, next') =
      thread_objects (objects_in obj_size) (aligned sp obj_size) obj_size 0 0 s.next in
    record s {
      slabs =
          put sp
            (record {
              next = 0;
              free_list = last;
              used = 0;
              obj_per_page = objects_in obj_size;
              cache_idx = cache_idx;
            })
            s.slabs;
      next = next';
    }

-- `for (int i = 0; i < SLUB_NCACHE; i++) …` with k rounds left.
unfoldable pub init_caches : ℕ → ℕ → (ℕ → Cache) → ℕ → Cache
init_caches zero i caches = caches
init_caches (suc k) i caches =
    init_caches k (i + 1) (put i (record { obj_size = 2 ^ (3 + i); pages = 0 }) caches)

unfoldable pub slub_init : {P : Type 0} → State P → State P
slub_init s = record s { caches = init_caches ncache 0 s.caches }

-- `memset(sp, 0, PGSIZE)`
unfoldable pub clear_page : {P : Type 0} → ℕ → State P → State P
clear_page sp s = record s {
  slabs =
      put sp (record { next = 0; free_list = 0; used = 0; obj_per_page = 0; cache_idx = 0 })
        s.slabs;
  next = λ q. if leb sp q && ltb q (sp + page_size) then 0 else s.next q;
}

-- `while (sp) { if (sp->free_list) break; sp = sp->next; }`
unfoldable pub find_slab : {P : Type 0} → ℕ → ℕ → State P → Run ℕ
find_slab zero sp s = out_of_fuel
find_slab (suc k) sp s =
    let rest = find_slab k (s.slabs sp).next s in
    if sp == 0 then done 0 else if (s.slabs sp).free_list == 0 then rest else done sp

-- The end of `kmalloc`: the first free object of the slab is taken.
unfoldable pub take_object : {P : Type 0} → ℕ → State P → Run (ℕ × State P)
take_object sp s =
    let slab = s.slabs sp in
    let obj = slab.free_list in
    if obj == 0
    then panicked
    else done (
      obj,
      record s {
        slabs = put sp (record slab { free_list = s.next obj; used = u32 (slab.used + 1) }) s.slabs;
      },
    )

module _ {P : Type 0} (alloc_pages : ℕ → P → Run (ℕ × P)) (page_base nbase offset : ℕ) where
  -- `page2pa(page) + va_pa_offset`, in 64 bits.
  unfoldable pub page_address : ℕ → ℕ
  page_address page = u64 (u64 (u64 (sub64 page page_base + nbase) * page_size) + offset)

  -- `memset` of a page at the null pointer traps.
  unfoldable pub alloc_slab_page : ℕ → State P → Run (ℕ × State P)
  alloc_slab_page cache_idx s = do
    (pg, pmm) ← alloc_pages 1 s.pmm
    let c = s.caches cache_idx
    let sp = page_address pg
    let s1 = slab_page_init sp c.obj_size cache_idx (clear_page sp (record s { pmm = pmm }))
    let s2 = record s1 {
      slabs = put sp (record (s1.slabs sp) { next = c.pages }) s1.slabs;
      caches = put cache_idx (record c { pages = sp }) s1.caches;
    }
    (if pg == 0
        then done (0, record s { pmm = pmm })
        else if sp == 0
        then panicked
        else done (sp, s2))

  -- `kmalloc` above the size of a page.
  unfoldable pub kmalloc_pages : ℕ → State P → Run (ℕ × State P)
  kmalloc_pages size s = do
    (pg, pmm) ← alloc_pages (u64 (size + page_size - 1) / page_size) s.pmm
    done (if pg == 0 then 0 else page_address pg, record s { pmm = pmm })

  -- `kmalloc` up to the size of a page; k bounds the walk over the slabs.
  unfoldable pub kmalloc_object : ℕ → ℕ → State P → Run (ℕ × State P)
  kmalloc_object k size s = do
    let idx = size_to_index size
    found ← find_slab k (s.caches idx).pages s
    (sp, s') ← (if found == 0 then alloc_slab_page idx s else done (found, s))
    if sp == 0 then done (0, s') else take_object sp s'

  unfoldable pub kmalloc : ℕ → ℕ → State P → Run (ℕ × State P)
  kmalloc k size s =
      if size == 0
      then done (0, s)
      else if ltb page_size size
      then kmalloc_pages size s
      else kmalloc_object k size s

unfoldable pub kfree : {P : Type 0} → ℕ → State P → State P
kfree ptr s =
    let sp = ptr / page_size * page_size in
    let slab = s.slabs sp in
    if (ptr == 0) then s else if leb ncache slab.cache_idx then s else record s {
      next = put ptr slab.free_list s.next;
      slabs = put sp (record slab { free_list = ptr; used = u32 (slab.used + 2 ^ 32 - 1) }) s.slabs;
    }
