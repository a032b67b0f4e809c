-- ===== src/FreeArea/Tail.antt =====
-- What `free_pages` does to a block that stands behind every block of a list that has one: the loop
-- of the insertion has no `break` there, and links the block to itself.
use lab.Base.{
  ℕ, ◌+◌, ◌^◌, ◌<◌, ◌≡◌, ◌≢◌, refl, sym, ap, ◌∙◌, inl, inr, false, List, [], ◌∷◌, ◌++◌,
  append_assoc, append-nil, length, length-append, last, All, All-last, NotIn, lt→ltb, u32, done,
  arith,
}
use lab.LinkList.{Store, list_add, link_between, set_next, set_prev, list_empty, list_prev}
use lab.LinkList.Links.{Links, Links-right}
use lab.LinkList.Ring.{Ring, Ring-cut}
use lab.LinkList.Laws.{list_empty-Ring, is_nil}
use lab.FreeArea.{Page, State, put, insert, add_block, merge_prev, merge_next, free_pages}
use lab.FreeArea.Blocks.{Block, bases, bases-append, length-bases, total, Ordered, Ordered-right}
use lab.FreeArea.Holds.{Holds, Allocated, Same}
use lab.FreeArea.Outcome.{length-le-total}
use lab.FreeArea.Walk.{Before, insert_loop-end}
use lab.FreeArea.Insert.{Before-of_Ordered, Ordered-fresh, marked}
use lab.FreeArea.Release.{release_pages-Ran}
use lab.FreeArea.Free.{snoc-cases}

-- The store that the loop leaves: the block behind `z`, and then behind itself.
abbrev pub looped : ℕ → ℕ → Store → Store
looped z base l = list_add base base (list_add z base l)

pub looped_lem :
    (z base : ℕ) (l : Store)
    → (l z).next ≡ 0
    → 0 < z
    → z < base
    → ((looped z base l base).prev ≡ base)
      × ((looped z base l base).next ≡ 0)
      × ((looped z base l 0).prev ≡ base)
      × ((looped z base l z).next ≡ base)
      × ((x : ℕ) → x ≢ z → x ≢ base → (looped z base l x).next ≡ (l x).next)
unfolding list_add link_between set_next set_prev
looped_lem z base l e p q =
    (ground arith, ground arith, ground arith, ground arith, λ x n m. ground arith)

-- A state with an entry that is its own predecessor stands for no free list, if the head names that
-- entry as the last.
pub self_loop-not-Holds :
    (s : State) (base : ℕ)
    → 0 < base
    → (s.links 0).prev ≡ base
    → (s.links base).prev ≡ base
    → (bs : List Block) → ¬ Holds s bs
self_loop-not-Holds s base pos head loop bs v = elim (snoc-cases bs) [
  | inl e ↦ let w : Holds s [] = rw e at v in absurd (omega (arith, w.ring.links.0.1))
  | inr (ys, y, e) ↦
      let w : Holds s (ys ++ y ∷ []) = rw e at v in
      let r : Ring s.links 0 (bases ys ++ y.base ∷ []) =
        rw (bases-append ys (y ∷ [])) at (w.ring) in
      let (_, e', after) = Ring-cut (bases ys) (y.base ∷ []) r in
      let n = Ordered-fresh ys y [] w.ordered in
      let n' : NotIn y.base (0 ∷ bases ys) = rw append-nil at n in
      let same : y.base ≡ base = sym (after.0.1) ∙ head in
      let back : last 0 (bases ys) ≡ base = sym e'.1 ∙ (ap (λ x. (s.links x).prev) same ∙ loop) in
      All-last (λ x. y.base ≢ x) 0 (bases ys) n'.0 n'.1 (same ∙ sym back)
]

module _ {s : State} (pre : List Block) (z b : Block) (v : Holds s (pre ++ z ∷ []))
    (o : Ordered 1 ((pre ++ z ∷ []) ++ b ∷ [])) (al : Allocated s.pages b.base b.size)
    (room : total (pre ++ z ∷ []) + b.size < 2 ^ 32) where
  pub tail : Ordered z.base (z ∷ b ∷ [])
  tail =
      let o' : Ordered 1 (pre ++ z ∷ b ∷ []) = rw append_assoc at o in
      let t = Ordered-right 1 pre (z ∷ b ∷ []) o' in (omega arith, t.1, t.2)

  pub ring : Ring s.links 0 (bases pre ++ z.base ∷ [])
  ring = rw (bases-append pre (z ∷ [])) at (v.ring)

  links : Links s.links 0 (bases pre ++ z.base ∷ 0 ∷ [])
  links = rw append_assoc at (ring.links)

  pub low : 0 < z.base
  low = (Ordered-right 1 pre (z ∷ []) v.ordered).0

  pub links-z : (s.links z.base).next ≡ 0
  links-z = (Links-right s.links 0 (bases pre) (z.base ∷ 0 ∷ []) links).1.0.0

  pub behind : z.base < b.base
  behind = omega (arith, tail.1, tail.2.0)

  before : All (Before b.base) (bases pre)
  before =
      Before-of_Ordered 1 b.base pre b [] (omega arith) refl (skip 1 pre (rw append_assoc at o))
    where
      skip : (lo : ℕ) (cs : List Block) → Ordered lo (cs ++ z ∷ b ∷ []) → Ordered lo (cs ++ b ∷ [])
      skip lo [] k = (omega arith, k.2.1, tt)
      skip lo (c ∷ cs) k = (k.0, k.1, skip (c.base + c.size) cs k.2)

  -- The state that the block is left in, given the descriptors after the first loop.
  abbrev pub at_end : (ℕ → Page) → State
  at_end pages = record {
    pages = marked b pages;
    links = looped z.base b.base s.links;
    nr_free = u32 (s.nr_free + b.size);
  }

  in_loop :
      (fuel : ℕ)
      → length pre + 2 < fuel
      → insert fuel b.base s.links ≡ done (looped z.base b.base s.links)
  unfolding insert
  in_loop fuel enough =
      let nonempty : list_empty 0 s.links ≡ false =
        list_empty-Ring s.links 0 _ ring ∙ some-nil (bases pre) in
      rw (
        nonempty,
        insert_loop-end fuel 0 b.base z.base (bases pre) s.links links before (low, behind)
            (omega (arith, length-bases pre)),
      )
    where
      some-nil : (xs : List ℕ) → is_nil (xs ++ z.base ∷ []) ≡ false
      some-nil [] = refl
      some-nil (x ∷ xs) = refl

  pub add-at_end : (pages : ℕ → Page) → add_block b.base b.size pages s ≡ done (at_end pages)
  unfolding add_block
  add-at_end pages = rw (
      in_loop (u32 (s.nr_free + b.size) + 2) (
        omega (
          arith,
          v.count,
          tail.2.1,
          length-le-total 1 (pre ++ z ∷ []) v.ordered,
          length-append pre (z ∷ []),
        )))

  pub merges-at_end :
      (pages : ℕ → Page)
      → (merge_prev b.base (at_end pages) ≡ (b.base, at_end pages))
        × (merge_next b.base (at_end pages) ≡ at_end pages)
  unfolding merge_prev merge_next put
  merges-at_end pages =
      let (back, next, _, _, _) = looped_lem z.base b.base s.links links-z low behind in
      (ground (arith, back, tail.2.1, room), ground (arith, next))

  pub free_pages-state :
      (pages : ℕ → Page) × (free_pages b.base b.size s ≡ done (at_end pages))
      × Same b.base (b.base + b.size) s.pages pages
      × Allocated pages b.base b.size
  unfolding free_pages
  free_pages-state =
      let (pages, ran, same, al') = release_pages-Ran b.size b.base s.pages al in
      let (prev, next) = merges-at_end pages in
      (pages, rw (lt→ltb 0 b.size tail.2.1, ran, add-at_end pages, prev, next), same, al')

  -- The block freed behind all others is linked to itself, and the state stands for no free list.
  pub free_pages-at_end :
      (s' : State) × (free_pages b.base b.size s ≡ done s')
      × (list_prev b.base s'.links ≡ b.base)
      × ((bs : List Block) → ¬ Holds s' bs)
  free_pages-at_end =
      let (pages, e, _, _) = free_pages-state in
      let (back, _, head, _, _) = looped_lem z.base b.base s.links links-z low behind in
      (
        at_end pages,
        e,
        back,
        self_loop-not-Holds (at_end pages) b.base (omega (arith, low, behind)) head back,
      )
