-- ===== src/Buddy/Region.antt =====
-- How `buddy_init_memmap` splits a region into blocks.
use native.Mathlib.Decide.{dec_lt}
use lab.Base.{
  ℕ, zero, suc, ◌+◌, ◌-◌, ◌*◌, ◌/◌, ◌^◌, ◌≤◌, ◌<◌, ◌≡◌, ◌≢◌, refl, sym, ◌∙◌, inl, inr, true, false,
  ◌&&◌, ltb, leb, lt→ltb, le→ltb, ne→==, if◌then◌else◌, Bool-cases, List, [], ◌∷◌, All, NotIn, done,
  arith,
}
use lab.Buddy.{
  State, put, buddy_add_free, buddy_clear_pages, largest_order, add_max_blocks, split_region,
  buddy_init_memmap,
}
use lab.Buddy.Lists.{Lists, update, holds_page, free_pages_in, cover, NotIn_of_cover, pow_pos}
use lab.Buddy.Holds.{Desc, Holds}
use lab.Buddy.Add.{add-Holds, add_weigh}
use lab.Buddy.Order.{pow_mono}

-- Whether page q is one of the n pages from p on: 1 or 0.
abbrev pub in_region : ℕ → ℕ → ℕ → ℕ
in_region q p n = if leb p q && ltb q (p + n) then 1 else 0

-- The state stands for lists that have the n pages from p on in addition.
pub record Grown (fl : Lists) (p n : ℕ) (s' : State) : Type 0 where
  pub lists : Lists
  pub holds : Holds s' lists
  pub covers : (q : ℕ) → cover lists q ≡ cover fl q + in_region q p n
  pub free_pages : free_pages_in lists ≡ free_pages_in fl + n

-- A region that can be added: no free block has a page of it, and the count has room.
pub record Addable (fl : Lists) (p n : ℕ) : Type 0 where
  pub above : 10 < p
  pub unfree : (q : ℕ) → p ≤ q → q < p + n → cover fl q ≡ 0
  pub room : free_pages_in fl + n < 2 ^ 32

Grown-none : {s : State} (fl : Lists) (p : ℕ) → Holds s fl → Grown fl p 0 s
Grown-none fl p v = record {
  lists = fl;
  holds = v;
  covers = λ q. ground arith;
  free_pages = omega arith;
}

-- A region whose first a pages are added, and then the others.
Grown-trans :
    {fl : Lists} {p : ℕ} {s1 s2 : State} (a n : ℕ)
    → a ≤ n
    → (g : Grown fl p a s1) → Grown g.lists (p + a) (n - a) s2
    → Grown fl p n s2
Grown-trans a n le g h = record {
  lists = h.lists;
  holds = h.holds;
  covers = λ q. ground (arith, g.covers q, h.covers q);
  free_pages = omega (arith, g.free_pages, h.free_pages);
}

Addable-first : {fl : Lists} {p : ℕ} (a n : ℕ) → a ≤ n → Addable fl p n → Addable fl p a
Addable-first a n le r = record {
  above = r.above;
  unfree = λ q lo hi. r.unfree q lo (omega arith);
  room = omega (arith, r.room);
}

Addable-rest :
    {fl : Lists} {p : ℕ} {s1 : State} (a n : ℕ)
    → a ≤ n
    → Addable fl p n
    → (g : Grown fl p a s1) → Addable g.lists (p + a) (n - a)
Addable-rest a n le r g = record {
  above = omega (arith, r.above);
  unfree = λ q lo hi. ground (arith, g.covers q, r.unfree q (omega arith) (omega arith));
  room = omega (arith, r.room, g.free_pages);
}

add-Grown :
    {s : State} {fl : Lists} (o p : ℕ)
    → Holds s fl
    → o < 11
    → Addable fl p (2 ^ o)
    → Grown fl p (2 ^ o) (buddy_add_free p o s)
add-Grown {s} {fl} o p v ho r = record {
  lists = update o (p ∷ fl o) fl;
  holds = add-Holds v o p ho r.above r.unfree r.room;
  covers = λ q. add_weigh v o p ho r.above r.unfree r.room (holds_page q);
  free_pages = add_weigh v o p ho r.above r.unfree r.room (λ o p. 2 ^ o);
}

add_max_blocks-Grown :
    (b p : ℕ) {s : State} {fl : Lists}
    → Holds s fl
    → Addable fl p (b * 1024)
    → Grown fl p (b * 1024) (add_max_blocks b p s)
unfolding add_max_blocks
add_max_blocks-Grown zero p {s} {fl} v r =
    let none_left : zero * 1024 ≡ 0 = omega arith in rw none_left (Grown-none fl p v)
add_max_blocks-Grown (suc b) p {s} {fl} v r =
    let first = Addable-first 1024 (suc b * 1024) (omega arith) r in
    let g = add-Grown 10 p v (omega arith) first in
    let left : suc b * 1024 - 1024 ≡ b * 1024 = omega arith in
    let rest = Addable-rest 1024 (suc b * 1024) (omega arith) r g in
    let others = add_max_blocks-Grown b (p + 1024) g.holds (rw left at (rest)) in
    Grown-trans 1024 (suc b * 1024) (omega arith) g (rw left others)

largest_order-le : (k remain o : ℕ) → 2 ^ o ≤ remain → 2 ^ largest_order k remain o ≤ remain
unfolding largest_order
largest_order-le zero remain o h = h
largest_order-le (suc k) remain o h = elim (Bool-cases (leb (2 ^ (o + 1)) remain)) [
  | inl fits ↦ rw fits (largest_order-le k remain (o + 1) (ground arith))
  | inr full ↦ rw full h
]

split_region_max :
    (k p n : ℕ) (s : State)
    → 10 < largest_order 63 (suc n) 0
    → let b = 2 ^ largest_order 63 (suc n) 0 / 1024 in
      split_region (suc k) p (suc n) s
      ≡ split_region k (p + b * 1024) (suc n - b * 1024) (add_max_blocks b p s)
unfolding split_region
split_region_max k p n s large =
    rw (ne→== (suc n) 0 (λ e. absurd (omega arith)), lt→ltb 10 (largest_order 63 (suc n) 0) large)
      refl

split_region_one :
    (k p n : ℕ) (s : State)
    → largest_order 63 (suc n) 0 ≤ 10
    → let o = largest_order 63 (suc n) 0 in
      split_region (suc k) p (suc n) s
      ≡ split_region k (p + 2 ^ o) (suc n - 2 ^ o) (buddy_add_free p o s)
unfolding split_region
split_region_one k p n s small =
    rw (ne→== (suc n) 0 (λ e. absurd (omega arith)), le→ltb 10 (largest_order 63 (suc n) 0) small)
      refl

-- A part of the region is added, and then what is left.
split_region-Grown :
    (k p n : ℕ) {s : State} {fl : Lists}
    → Holds s fl
    → Addable fl p n
    → n < k
    → (s' : State) × (split_region k p n s ≡ done s') × Grown fl p n s'
unfolding split_region
split_region-Grown zero p n v r h = absurd (omega arith)
split_region-Grown (suc k) p zero {s} {fl} v r h = (s, refl, Grown-none fl p v)
split_region-Grown (suc k) p (suc n) {s} {fl} v r h =
    let o = largest_order 63 (suc n) 0 in
    let fits = largest_order-le 63 (suc n) 0 (omega arith) in
    elim (dec_lt 10 o) [
      | yes large ↦
          let b = 2 ^ o / 1024 in
          let big : 2048 ≤ 2 ^ o = omega (arith, pow_mono 11 o large) in
          let le : b * 1024 ≤ suc n = omega (arith, fits) in
          let g = add_max_blocks-Grown b p v (Addable-first (b * 1024) (suc n) le r) in
          let (s', run, g') =
            split_region-Grown k (p + b * 1024) (suc n - b * 1024) g.holds
              (Addable-rest (b * 1024) (suc n) le r g) (omega (arith, big)) in
          (s', split_region_max k p n s large ∙ run, Grown-trans (b * 1024) (suc n) le g g')
      | no small ↦
          let g = add-Grown o p v (omega arith) (Addable-first (2 ^ o) (suc n) fits r) in
          let (s', run, g') =
            split_region-Grown k (p + 2 ^ o) (suc n - 2 ^ o) g.holds
              (Addable-rest (2 ^ o) (suc n) fits r g) (omega (arith, pow_pos o)) in
          (s', split_region_one k p n s (omega arith) ∙ run, Grown-trans (2 ^ o) (suc n) fits g g')
    ]

clear-Desc :
    (s : State) (p o x : ℕ)
    → p ≢ x
    → Desc s o x
    → Desc (record s { reserved = put p false s.reserved; order = put p 0 s.order }) o x
unfolding put
clear-Desc s p o x ne d = record {
  above = d.above;
  order = rw (ne→== x p (λ e. ne (sym e))) d.order;
  base = d.base;
}

clear-Descs :
    (s : State) (p o : ℕ) (xs : List ℕ)
    → NotIn p xs
    → All (Desc s o) xs
    → All (Desc (record s { reserved = put p false s.reserved; order = put p 0 s.order }) o) xs
clear-Descs s p o [] n d = tt
clear-Descs s p o (x ∷ xs) n d = (clear-Desc s p o x n.0 d.0, clear-Descs s p o xs n.1 d.1)

-- The loop over the pages changes no free block.
clear_pages-Holds :
    (n p : ℕ) {s : State} {fl : Lists}
    → Holds s fl
    → ((q : ℕ) → p ≤ q → q < p + n → cover fl q ≡ 0)
    → ((q : ℕ) → p ≤ q → q < p + n → s.reserved q ≡ true)
    → (s' : State) × (buddy_clear_pages n p s ≡ done s') × Holds s' fl
unfolding buddy_clear_pages
clear_pages-Holds zero p {s} v free res = (s, refl, v)
clear_pages-Holds (suc n) p {s} {fl} v free res =
    let s1 : State = record s { reserved = put p false s.reserved; order = put p 0 s.order } in
    let v1 : Holds s1 fl = record {
      rings = v.rings;
      descs = λ o h.
          clear-Descs s p o (fl o) (NotIn_of_cover fl p o h (free p (omega arith) (omega arith)))
            (v.descs o h);
      disjoint = v.disjoint;
      count = v.count;
      small = v.small;
    } in
    let res1 : (q : ℕ) → p + 1 ≤ q → q < p + 1 + n → s1.reserved q ≡ true = λ q lo hi.
      unfold put in
      rw (ne→== q p (λ e. absurd (omega arith))) (res q (omega arith) (omega arith)) in
    let (s', run, v') =
      clear_pages-Holds n (p + 1) v1 (λ q lo hi. free q (omega arith) (omega arith)) res1 in
    (s', rw (res p (omega arith) (omega arith)) run, v')

-- `buddy_init_memmap` ends on at least one reserved page, when no free block has any of the pages, their
-- descriptors stand above the list heads, and the free pages stay below 2 ^ 32. It makes just these
-- pages free: the free lists stay in order, no page is in two blocks, and `nr_free` rises by their
-- number.
pub buddy_init_memmap-Grown :
    (base n : ℕ) {s : State} {fl : Lists}
    → Holds s fl
    → 0 < n
    → 10 < base
    → ((q : ℕ) → base ≤ q → q < base + n → cover fl q ≡ 0)
    → ((q : ℕ) → base ≤ q → q < base + n → s.reserved q ≡ true)
    → free_pages_in fl + n < 2 ^ 32
    → (s' : State) × (buddy_init_memmap base n s ≡ done s') × Grown fl base n s'
unfolding buddy_init_memmap
buddy_init_memmap-Grown base n v some_page above free res room =
    let (s1, run, v1) = clear_pages-Holds n base v free res in
    let (s2, run', g) =
      split_region-Grown (n + 1) base n v1 (record { above = above; unfree = free; room = room })
        (omega arith) in
    (s2, rw (lt→ltb 0 n some_page, run) run', g)
