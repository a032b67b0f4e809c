-- ===== src/FirstFit/Twice.antt =====
-- A consequence of the missing `break` for the first-fit manager.
use lab.Base.{
  ℕ, ◌+◌, ◌^◌, ◌≤◌, ◌<◌, ◌≡◌, ◌≢◌, refl, ◌∙◌, List, [], ◌∷◌, ◌++◌, append-nil, append_assoc, length,
  length-append, last, All, All-left, NotIn, All-map, All-mid, lt→ltb, le→ltb, ne→==, done, arith,
}
use lab.LinkList.{list_del, unlink_between, set_next, set_prev}
use lab.LinkList.Links.{
  Forward, Forward-append, Forward-frame, Links-left, NotSource-snoc, Forward-same, Links-Forward,
}
use lab.FreeArea.{Page, State, put, take_pages}
use lab.FreeArea.Blocks.{Block, bases, total, Ordered, bases-append}
use lab.FreeArea.Holds.{IsFree, Holds, Allocated, Same}
use lab.FreeArea.Outcome.{length-le-total}
use lab.FreeArea.Insert.{Ordered-fresh, marked, new-IsFree'}
use lab.FreeArea.Tail.{looped, looped_lem, at_end, free_pages-state, links-z, behind, low, tail}
use lab.FirstFit.{default_alloc_pages, default_free_pages}
use lab.FirstFit.Alloc.{first_base, find_first_lem}

abbrev HasSize : State → Block → Type 0
HasSize s c = (s.pages c.base).property ≡ c.size

first_base-skip :
    (n : ℕ) (bs : List Block) (b : Block)
    → All (λ c. c.size < n) bs
    → n ≤ b.size
    → first_base n (bs ++ b ∷ []) ≡ b.base
first_base-skip n [] b a fits = ground arith
first_base-skip n (c ∷ bs) b a fits = ground (arith, first_base-skip n bs b a.1 fits)

-- A block whose entry is its own predecessor, and the last that the walk meets.
record Looped (s : State) (bs : List Block) (b : Block) : Type 0 where
  forward : Forward s.links 0 (bases (bs ++ b ∷ []) ++ 0 ∷ [])
  sizes : All (HasSize s) (bs ++ b ∷ [])
  back : (s.links b.base).prev ≡ b.base
  next : (s.links b.base).next ≡ 0

module _ {s : State} (bs : List Block) (b : Block) (o : Ordered 1 (bs ++ b ∷ []))
    (small : All (λ c. c.size < b.size) bs) (pos : (0 < b.size) × (0 < b.base)) where
  size_eq : Looped s bs b → (s.pages b.base).property ≡ b.size
  size_eq v = All-mid (HasSize s) bs [] v.sizes

  take-next :
      Looped s bs b → (x : ℕ) → ((take_pages b.base b.size s).links x).next ≡ (s.links x).next
  unfolding take_pages list_del unlink_between set_next set_prev
  take-next v x = ground (arith, size_eq v, v.back, v.next)

  take-back : Looped s bs b → ((take_pages b.base b.size s).links b.base).prev ≡ b.base
  unfolding take_pages list_del unlink_between set_next set_prev
  take-back v = ground (arith, size_eq v, v.back, v.next, pos)

  take-property :
      Looped s bs b
      → (q : ℕ) → ((take_pages b.base b.size s).pages q).property ≡ (s.pages q).property
  unfolding take_pages put
  take-property v q = ground (arith, size_eq v)

  take-Looped : Looped s bs b → Looped (take_pages b.base b.size s) bs b
  take-Looped v = record {
    forward = Forward-same s.links (take_pages b.base b.size s).links 0 _ (take-next v) v.forward;
    sizes = All-map (HasSize s) _ (bs ++ b ∷ []) (λ c e. take-property v c.base ∙ e) v.sizes;
    back = take-back v;
    next = take-next v b.base ∙ v.next;
  }

  -- The block is handed out, and its entry stays where it is.
  alloc-Looped :
      Looped s bs b
      → b.size ≤ s.nr_free
      → s.nr_free < 2 ^ 32
      → length (bs ++ b ∷ []) < s.nr_free + 2
      → default_alloc_pages b.size s ≡ done (b.base, take_pages b.base b.size s)
  unfolding default_alloc_pages
  alloc-Looped v fits room fuel = rw (
    lt→ltb 0 b.size pos.0,
    le→ltb s.nr_free b.size fits,
    find_first_lem (s.nr_free + 2) b.size 0 1 s (bs ++ b ∷ []) v.forward v.sizes o (omega arith)
        fuel,
    first_base-skip b.size bs b small (omega arith),
    ne→== b.base 0 (omega arith),
  )

take_pages-nr_free :
    (p n : ℕ) (s : State)
    → n ≤ s.nr_free
    → s.nr_free < 2 ^ 32
    → (take_pages p n s).nr_free + n ≡ s.nr_free
unfolding take_pages
take_pages-nr_free p n s h k = omega arith

last_snoc : (x : ℕ) (pre : List Block) (z : Block) → last x (bases (pre ++ z ∷ [])) ≡ z.base
last_snoc x [] z = refl
last_snoc x (a ∷ pre) z = last_snoc a.base pre z

module _ {s : State} (pre : List Block) (z b : Block) (v : Holds s (pre ++ z ∷ []))
    (o : Ordered 1 ((pre ++ z ∷ []) ++ b ∷ [])) (al : Allocated s.pages b.base b.size)
    (room : total (pre ++ z ∷ []) + b.size < 2 ^ 32) where
  abbrev freed : (ℕ → Page) → State
  freed pages = at_end pre z b v o al room pages

  facts :
      ((looped z.base b.base s.links b.base).prev ≡ b.base)
      × ((looped z.base b.base s.links b.base).next ≡ 0)
      × ((looped z.base b.base s.links 0).prev ≡ b.base)
      × ((looped z.base b.base s.links z.base).next ≡ b.base)
      × ((x : ℕ)
          → x ≢ z.base
          → x ≢ b.base
          → (looped z.base b.base s.links x).next ≡ (s.links x).next)
  facts =
      looped_lem z.base b.base s.links (links-z pre z b v o al room) (low pre z b v o al room)
        (behind pre z b v o al room)

  not_z : NotIn z.base (0 ∷ bases pre)
  not_z = rw append-nil at (Ordered-fresh pre z [] v.ordered)

  not_b : NotIn b.base (0 ∷ bases (pre ++ z ∷ []))
  not_b = rw append-nil at (Ordered-fresh (pre ++ z ∷ []) b [] o)

  freed-chain : Forward (looped z.base b.base s.links) 0 (bases (pre ++ z ∷ []))
  freed-chain =
      let old =
        Links-Forward s.links 0 (bases (pre ++ z ∷ []))
          (Links-left s.links 0 (bases (pre ++ z ∷ [])) (0 ∷ []) v.ring.links) in
      let not_b' : NotIn b.base (bases pre ++ z.base ∷ []) =
        rw (bases-append pre (z ∷ [])) at (not_b.1) in
      let old' : Forward s.links 0 (bases pre ++ z.base ∷ []) =
        rw (bases-append pre (z ∷ [])) at old in
      rw (bases-append pre (z ∷ [])) (
        Forward-frame s.links (looped z.base b.base s.links) z.base b.base 0
          (bases pre ++ z.base ∷ []) facts.4
          (NotSource-snoc z.base 0 z.base (bases pre) not_z.0 not_z.1)
          (NotSource-snoc b.base 0 z.base (bases pre) not_b.0
            (All-left _ (bases pre) (z.base ∷ []) not_b'))
          old')

  freed-Forward :
      Forward (looped z.base b.base s.links) 0 (bases ((pre ++ z ∷ []) ++ b ∷ []) ++ 0 ∷ [])
  freed-Forward =
      rw (bases-append (pre ++ z ∷ []) (b ∷ []), append_assoc)
        (Forward-append (looped z.base b.base s.links) 0 b.base (bases (pre ++ z ∷ [])) (0 ∷ [])
          freed-chain (rw (last_snoc 0 pre z) facts.3) (facts.1, tt))

  freed-Looped :
      (pages : ℕ → Page)
      → Same b.base (b.base + b.size) s.pages pages
      → Allocated pages b.base b.size
      → Looped (freed pages) (pre ++ z ∷ []) b
  freed-Looped pages same al' = record {
    forward = freed-Forward;
    sizes =
        All-map (IsFree (marked b pages)) _ ((pre ++ z ∷ []) ++ b ∷ []) (λ c f. f.size)
          (new-IsFree' {s = s} pages (pre ++ z ∷ []) b [] (rw append-nil v) o same al'
            (rw append-nil room));
    back = facts.0;
    next = facts.1;
  }

  -- Pages that are freed behind all others are handed out twice: if no other block has as many, and
  -- all others together have as many, two allocations in a row return the same block.
  pub default_alloc_pages_twice :
      All (λ c. c.size < b.size) (pre ++ z ∷ [])
      → b.size ≤ total (pre ++ z ∷ [])
      → (s1 : State) × (s2 : State) × (s3 : State) × (default_free_pages b.base b.size s ≡ done s1)
        × (default_alloc_pages b.size s1 ≡ done (b.base, s2))
        × (default_alloc_pages b.size s2 ≡ done (b.base, s3))
  unfolding default_free_pages
  default_alloc_pages_twice small enough =
      let (pages, e, same, al') = free_pages-state pre z b v o al room in
      let t = tail pre z b v o al room in
      let pos : (0 < b.size) × (0 < b.base) =
        (t.2.1, omega (arith, t.0, t.2.0, low pre z b v o al room)) in
      let s1 = freed pages in
      let s2 = take_pages b.base b.size s1 in
      let long : length ((pre ++ z ∷ []) ++ b ∷ []) < total (pre ++ z ∷ []) + 2 = omega (
        arith,
        length-append (pre ++ z ∷ []) (b ∷ []),
        length-le-total 1 (pre ++ z ∷ []) v.ordered,
      ) in
      let n1 : s1.nr_free ≡ total (pre ++ z ∷ []) + b.size = omega (arith, v.count) in
      let n2 = take_pages-nr_free b.base b.size s1 (omega arith) (omega arith) in
      let l1 = freed-Looped pages same al' in
      let l2 = take-Looped (pre ++ z ∷ []) b o small pos l1 in
      (
        s1,
        s2,
        take_pages b.base b.size s2,
        e,
        alloc-Looped (pre ++ z ∷ []) b o small pos l1 (omega arith) (omega arith) (omega arith),
        alloc-Looped (pre ++ z ∷ []) b o small pos l2 (omega arith) (omega arith) (omega arith),
      )
