-- ===== src/FreeArea/Free.antt =====
-- `init_memmap` and `free_pages` against the abstract free list.
use lab.Base.{
  ℕ, ◌+◌, ◌^◌, ◌≤◌, ◌<◌, ◌≡◌, ◌≢◌, refl, ap, sym, ◌∙◌, ◌⊎◌, inl, inr, true, List, [], ◌∷◌, ◌++◌,
  append_assoc, append-nil, last, All, lt→ltb, Run, done, arith,
}
use lab.FreeArea.{Page, State, add_block, init_memmap, free_pages, merge_prev, merge_next}
use lab.LinkList.{list_empty, list_prev}
use lab.LinkList.Ring.{Ring, Ring-cut}
use lab.LinkList.Laws.{list_empty-Ring}
use lab.FreeArea.Blocks.{Block, bases, total, Ordered, Ordered-right}
use lab.FreeArea.Holds.{Holds, Allocated, Away}
use lab.FreeArea.Insert.{NotAtEnd, add_block-Holds}
use lab.FreeArea.Release.{Reserved, Ran, clear_pages-Ran, release_pages-Ran}
use lab.FreeArea.Merge.{one, join, merge_next-Holds, merge_prev-behind, merge_prev-first}
use lab.FreeArea.Spec.{free_block, NoTouch, free_block-apart, free_block_touch}

-- The list is empty, or its last block stands behind `base`.
abbrev pub BelowLast : ℕ → List Block → Type 0
BelowLast base bs = (bs ≡ []) ⊎ (base < last 0 (bases bs))

-- The same, as the list's head shows it.
pub BelowLast-of_head :
    {s : State} (base : ℕ) (bs : List Block)
    → Holds s bs
    → (list_empty 0 s.links ≡ true) ⊎ (base < list_prev 0 s.links)
    → BelowLast base bs
BelowLast-of_head {s} base [] v h = inl refl
BelowLast-of_head {s} base (b ∷ bs) v (inl e) =
    absurd (ground (arith, list_empty-Ring s.links 0 (bases (b ∷ bs)) v.ring))
BelowLast-of_head {s} base (b ∷ bs) v (inr less) =
    let r : Ring s.links 0 (bases (b ∷ bs) ++ []) = rw append-nil v.ring in
    let (_, e, _) = Ring-cut (bases (b ∷ bs)) [] r in inr (rw (e.1) at less)

-- The place of a block among those that it does not overlap.
place-from :
    (lo : ℕ) (b : Block) (bs : List Block)
    → lo ≤ b.base
    → 0 < b.size
    → Ordered lo bs
    → All (Away b.base (b.base + b.size)) bs
    → (pre post : List Block) × (bs ≡ pre ++ post) × Ordered lo (pre ++ b ∷ post)
place-from lo b [] h p o a = ([], [], refl, (h, p, tt))
place-from lo b (c ∷ cs) h p o a = elim a.0 [
  | inl before ↦
      let (pre, post, e, k) = place-from (c.base + c.size) b cs before p o.2 a.1 in
      (c ∷ pre, post, ap (λ l. c ∷ l) e, (o.0, o.1, k))
  | inr behind ↦ ([], c ∷ cs, refl, (h, p, (behind, o.1, o.2)))
]

last-le :
    (lo x : ℕ) (pre : List Block) (b : Block)
    → x ≤ b.base
    → Ordered lo (pre ++ b ∷ [])
    → last x (bases pre) ≤ b.base
last-le lo x [] b h o = h
last-le lo x (a ∷ pre) b h o =
    let after = Ordered-right (a.base + a.size) pre (b ∷ []) o.2 in
    last-le (a.base + a.size) a.base pre b (omega arith) o.2

not_at_end :
    (pre : List Block) (b : Block) (post : List Block)
    → Ordered 1 (pre ++ b ∷ post)
    → BelowLast b.base (pre ++ post)
    → NotAtEnd post pre
not_at_end pre b (c ∷ post) o h = tt
not_at_end pre b [] o h =
    let h' : BelowLast b.base pre = rw append-nil at h in
    elim h' [ inl e ↦ e | inr less ↦ absurd (omega (arith, last-le 1 0 pre b (omega arith) o)) ]

pub snoc-cases :
    (xs : List Block) → (xs ≡ []) ⊎ ((ys : List Block) × (y : Block) × (xs ≡ ys ++ y ∷ []))
snoc-cases [] = inl refl
snoc-cases (x ∷ xs) = elim (snoc-cases xs) [
  | inl e ↦ inr ([], x, ap (λ l. x ∷ l) e)
  | inr (ys, y, e) ↦ inr (x ∷ ys, y, ap (λ l. x ∷ l) e)
]

no_touch :
    (lo : ℕ) (pre : List Block) (a b : Block) (post : List Block)
    → Ordered lo (pre ++ a ∷ b ∷ post)
    → a.base + a.size ≢ b.base
    → NoTouch b.base (pre ++ a ∷ [])
no_touch lo [] a b post o ne = (ne, tt)
no_touch lo (c ∷ pre) a b post o ne =
    let after = Ordered-right (c.base + c.size) pre (a ∷ b ∷ post) o.2 in
    (omega arith, no_touch (c.base + c.size) pre a b post o.2 ne)

-- The two merges join a block that is on the list with its neighbours.
merges-behind :
    {s : State} (pre : List Block) (a b : Block) (post : List Block)
    → Holds s (pre ++ a ∷ b ∷ post)
    → let (base, s') = merge_prev b.base s in
      Holds (merge_next base s') (free_block b (pre ++ a ∷ post))
merges-behind {s} pre a b post v = elim (merge_prev-behind pre a b post v) [
  | inl (e, touch, v') ↦
      rw (e, free_block_touch 1 pre a b post v.ordered touch)
        (merge_next-Holds pre (one a b) post v')
  | inr (e, apart, same) ↦
      let v' : Holds s ((pre ++ a ∷ []) ++ b ∷ post) = rw append_assoc v in
      let spec : free_block b (pre ++ a ∷ post) ≡ (pre ++ a ∷ []) ++ join b post =
        ap (free_block b) (sym (append_assoc pre (a ∷ []) post))
        ∙ free_block-apart 1 (pre ++ a ∷ []) b post v'.ordered
            (no_touch 1 pre a b post v.ordered apart) in
      rw (e, same, spec) (merge_next-Holds (pre ++ a ∷ []) b post v')
]

merges-Holds :
    {s : State} (pre : List Block) (b : Block) (post : List Block)
    → Holds s (pre ++ b ∷ post)
    → let (base, s') = merge_prev b.base s in
      Holds (merge_next base s') (free_block b (pre ++ post))
merges-Holds {s} pre b post v = elim (snoc-cases pre) [
  | inl e ↦
      let v' : Holds s (b ∷ post) = rw e at v in
      rw (e, merge_prev-first b post v', free_block-apart 1 [] b post v'.ordered tt)
        (merge_next-Holds [] b post v')
  | inr (ys, y, e) ↦
      let v' : Holds s (ys ++ y ∷ b ∷ post) = rw append_assoc at (rw e at v) in
      rw (e, append_assoc) (merges-behind ys y b post v')
]

module _ {s : State} {bs : List Block} (b : Block) (v : Holds s bs) (low : 0 < b.base)
    (pos : 0 < b.size) (away : All (Away b.base (b.base + b.size)) bs) (below : BelowLast b.base bs)
    (room : total bs + b.size < 2 ^ 32) where
  -- What the insertion leads to, whatever loop ran before it.
  added :
      {r : Run (ℕ → Page)}
      → Ran b.base b.size s.pages r
      → (pages : ℕ → Page) × (s' : State) × (pre post : List Block) × (r ≡ done pages)
        × (add_block b.base b.size pages s ≡ done s')
        × (bs ≡ pre ++ post)
        × Holds s' (pre ++ b ∷ post)
  added (pages, ran, same, al) =
      let (pre, post, e, o) = place-from 1 b bs low pos v.ordered away in
      let v' : Holds s (pre ++ post) = rw e at v in
      let below' : BelowLast b.base (pre ++ post) = rw e at below in
      let room' : total (pre ++ post) + b.size < 2 ^ 32 = rw e at room in
      let (s', e', h, _) =
        add_block-Holds pages pre b post v' o same al room' (not_at_end pre b post o below') in
      (pages, s', pre, post, ran, e', e, h)

  -- Allocated pages that are given back join the free list as the specification says, unless they
  -- stand behind every free block of a list that has one.
  pub free_pages-Holds :
      Allocated s.pages b.base b.size
      → (s' : State) × (free_pages b.base b.size s ≡ done s') × Holds s' (free_block b bs)
  unfolding free_pages
  free_pages-Holds al =
      let (pages, s', pre, post, ran, e', e, h) =
        added (release_pages-Ran b.size b.base s.pages al) in
      let (base, s'') = merge_prev b.base s' in
      (merge_next base s'', rw (lt→ltb 0 b.size pos, ran, e'), rw e (merges-Holds pre b post h))

  -- Reserved pages become a block of the free list, at their place in address order.
  pub init_memmap-Holds :
      Reserved s.pages b.base b.size
      → (s' : State) × (pre post : List Block) × (init_memmap b.base b.size s ≡ done s')
        × (bs ≡ pre ++ post)
        × Holds s' (pre ++ b ∷ post)
  unfolding init_memmap
  init_memmap-Holds re =
      let (pages, s', pre, post, ran, e', e, h) =
        added (clear_pages-Ran b.size b.base s.pages re) in
      (s', pre, post, rw (lt→ltb 0 b.size pos, ran, e'), e, h)
