-- ===== src/Buddy.antt =====
-- kern/mm/buddy_pmm.c: the buddy manager. `&free_lists[o]` is the list entry number o, for o up to
-- `MAX_ORDER`; a `struct Page *` is the number of the descriptor, above those of the heads. A
-- `buddy_block_t` stands in the descriptor of its first page, and its `link` has the page's number.
--
-- The descriptor's words hold `link`, `order` and `base` of a free block over `ref`, `flags`,
-- `property` and `page_link` of the page. Of the page's own fields the code reads one bit, the
-- reserved bit of `flags`, and only before a block is put there; list pointers are even, so that bit
-- stays clear under them. The writes of 0 to `ref` and `flags` and the clearing of `PG_property` fall
-- on words of blocks that are on no list, and are left out.
pub mod Add
pub mod Alloc
pub mod Check
pub mod Coalesce
pub mod Find
pub mod Free
pub mod Holds
pub mod Init
pub mod Kept
pub mod Lists
pub mod Order
pub mod Region
pub mod Release
pub mod Remove
pub mod Stress
pub mod Tests
pub mod Xor
use Prim.Native.Nat.{bit_xor}
use lab.Base.{
  ℕ, zero, suc, ◌+◌, ◌-◌, ◌*◌, ◌/◌, ◌^◌, Bool, true, false, ◌||◌, Option, none, some, ltb, leb,
  ◌==◌, if◌then◌else◌, u32, sub64, Run, done, out_of_fuel, ◌>>=◌, ◌>>◌, assert,
}
use lab.LinkList.{Store, list_init, list_add, list_del, list_empty, list_next}

abbrev pub max_order : ℕ
max_order = 10

pub record State : Type 0 where
  pub links : Store
  pub order : ℕ → ℕ
  pub base : ℕ → ℕ
  pub reserved : ℕ → Bool
  pub nr_free : ℕ
  pub max_order_inited : ℕ

unfoldable pub put {ℓ} : {A : Type ℓ} → ℕ → A → (ℕ → A) → ℕ → A
put p v f = λ q. if q == p then v else f q

-- `for (i = 0; i <= MAX_ORDER; i++) list_init(&free_lists[i]);` with `k` rounds left.
unfoldable pub init_lists : ℕ → ℕ → Store → Store
init_lists zero i l = l
init_lists (suc k) i l = init_lists k (i + 1) (list_init i l)

unfoldable pub buddy_init : State → State
buddy_init s = record s {
  links = init_lists (max_order + 1) 0 s.links;
  nr_free = 0;
  max_order_inited = 0;
}

-- `while (s < n) { s <<= 1; o++; }` on `unsigned int`.
unfoldable pub order_loop : ℕ → ℕ → ℕ → ℕ → Run ℕ
order_loop zero n s o = out_of_fuel
order_loop (suc k) n s o =
    let on = order_loop k n (u32 (s * 2)) (o + 1) in if ltb s n then on else done o

-- The shifted bit leaves the word after 32 rounds.
unfoldable pub size_to_order : ℕ → Run ℕ
size_to_order n = order_loop 33 n 1 0

unfoldable pub buddy_add_free : ℕ → ℕ → State → State
buddy_add_free base order s = record {
  links = list_add order base s.links;
  order = put base order s.order;
  base = put base base s.base;
  reserved = s.reserved;
  nr_free = u32 (s.nr_free + 2 ^ order);
  max_order_inited = if ltb s.max_order_inited order then order else s.max_order_inited;
}

unfoldable pub buddy_remove_free : ℕ → State → ℕ × State
buddy_remove_free le s = (
  s.base le,
  record s { links = list_del le s.links; nr_free = u32 (sub64 s.nr_free (2 ^ (s.order le))) },
)

-- The loop of `buddy_init_memmap` over the pages.
unfoldable pub buddy_clear_pages : ℕ → ℕ → State → Run State
buddy_clear_pages zero p s = done s
buddy_clear_pages (suc k) p s = do
  assert (s.reserved p)
  buddy_clear_pages k (p + 1)
      (record s { reserved = put p false s.reserved; order = put p 0 s.order })

-- `while ((1UL << (o + 1)) <= remain) o++;`
unfoldable pub largest_order : ℕ → ℕ → ℕ → ℕ
largest_order zero remain o = o
largest_order (suc k) remain o =
    let on = largest_order k remain (o + 1) in if leb (2 ^ (o + 1)) remain then on else o

-- `for (b = 0; b < blocks; b++) …` with `blocks` rounds left.
unfoldable pub add_max_blocks : ℕ → ℕ → State → State
add_max_blocks zero cur s = s
add_max_blocks (suc blocks) cur s =
    add_max_blocks blocks (cur + 2 ^ max_order) (buddy_add_free cur max_order s)

-- `while (remain > 0) …`. Each round takes at least a page.
unfoldable pub split_region : ℕ → ℕ → ℕ → State → Run State
split_region zero cur remain s = out_of_fuel
split_region (suc k) cur remain s =
    let o = largest_order 63 remain 0 in
    let blocks = 2 ^ o / 2 ^ max_order in
    let on =
      if ltb max_order o
      then split_region k (cur + blocks * 2 ^ max_order) (remain - blocks * 2 ^ max_order)
          (add_max_blocks blocks cur s)
      else split_region k (cur + 2 ^ o) (remain - 2 ^ o) (buddy_add_free cur o s) in
    if remain == 0 then done s else on

unfoldable pub buddy_init_memmap : ℕ → ℕ → State → Run State
buddy_init_memmap base n s = do
  assert (ltb 0 n)
  s' ← buddy_clear_pages n base s
  split_region (n + 1) base n s'

-- `for (o = need_order; o <= MAX_ORDER; o++) if (!list_empty(&free_lists[o])) break;` with `k` rounds
-- left.
unfoldable pub find_order : ℕ → ℕ → Store → ℕ
find_order zero o l = o
find_order (suc k) o l = let on = find_order k (o + 1) l in if list_empty o l then on else o

-- `while (o > need_order) …` with `o - need_order` rounds left.
unfoldable pub split_block : ℕ → ℕ → ℕ → State → State
split_block zero o blk s = s
split_block (suc k) o blk s =
    split_block k (o - 1) blk (buddy_add_free (blk + 2 ^ (o - 1)) (o - 1) s)

unfoldable pub buddy_alloc_pages : ℕ → State → Run (ℕ × State)
buddy_alloc_pages n s = if n == 0 || ltb s.nr_free n then done (0, s) else do
  need_order ← size_to_order (u32 n)
  let o = find_order (max_order + 1 - need_order) need_order s.links
  if ltb max_order o
      then done (0, s)
      else let (blk, s') = buddy_remove_free (list_next o s.links) s in
        done (blk, split_block (o - need_order) o blk s')

-- The walk of `buddy_find_and_remove`: the entry of the block at `addr`.
unfoldable pub find_block : ℕ → ℕ → ℕ → ℕ → State → Run (Option ℕ)
find_block zero head addr le s = out_of_fuel
find_block (suc k) head addr le s =
    let p = list_next le s.links in
    let on = find_block k head addr p s in
    if p == head then done none else if s.base p == addr then done (some p) else on

-- `pages` is the number of the first page descriptor.
module _ (pages : ℕ) where
  unfoldable pub buddy_address : ℕ → ℕ → ℕ
  buddy_address base order = pages + bit_xor (base - pages) (2 ^ order)

  unfoldable pub buddy_find_and_remove : ℕ → ℕ → State → Run (Option ℕ × State)
  buddy_find_and_remove base order s = do
    let addr = buddy_address base order
    found ← find_block (s.nr_free + 2) order addr order s
    done (elim found [ none ↦ (none, s) | some le ↦ (some addr, (buddy_remove_free le s).1) ])

  -- `while (o <= MAX_ORDER) …` with `k` rounds left: `o` rises in every round but the last.
  unfoldable pub merge_loop : ℕ → ℕ → ℕ → State → Run State
  merge_loop zero o blk s = done s
  merge_loop (suc k) o blk s = do
    (buddy, s') ← buddy_find_and_remove blk o s
    elim buddy [
      | none ↦ done (buddy_add_free blk o s')
      | some b ↦
          let low = if ltb b blk then b else blk in
          let on = merge_loop k (o + 1) low s' in
          if ltb max_order (o + 1) then done (buddy_add_free low max_order s') else on
    ]

  unfoldable pub buddy_free_pages : ℕ → ℕ → State → Run State
  unfolding merge_loop
  buddy_free_pages base n s = do
    assert (ltb 0 n)
    o ← size_to_order (u32 n)
    merge_loop (max_order + 1 - o) o base s

unfoldable pub buddy_nr_free_pages : State → ℕ
buddy_nr_free_pages s = s.nr_free
