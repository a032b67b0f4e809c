-- ===== src/Buddy/Holds.antt =====
-- When a state of the buddy manager stands for its free lists.
use lab.Base.{ℕ, ◌^◌, ◌≤◌, ◌<◌, ◌≡◌, ◌≢◌, sym, ap, ◌∙◌, ◌∷◌, All, All-map, NotIn, arith}
use lab.LinkList.Ring.{Ring}
use lab.Buddy.{State}
use lab.Buddy.Lists.{Lists, free_pages_in, cover}

-- The descriptor of a free block: above the list heads, with its order and its own address.
pub record Desc (s : State) (o p : ℕ) : Type 0 where
  pub above : 10 < p
  pub order : s.order p ≡ o
  pub base : s.base p ≡ p

-- List o holds the blocks `fl o`, no page is in two blocks, and `nr_free` counts the pages.
pub record Holds (s : State) (fl : Lists) : Type 0 where
  pub rings : (o : ℕ) → o < 11 → Ring s.links o (fl o)
  pub descs : (o : ℕ) → o < 11 → All (Desc s o) (fl o)
  pub disjoint : (q : ℕ) → cover fl q ≤ 1
  pub count : s.nr_free ≡ free_pages_in fl
  pub small : free_pages_in fl < 2 ^ 32

-- No entry of one list, nor its head, stands on another.
pub apart :
    {s : State} {fl : Lists} (o i : ℕ)
    → Holds s fl
    → o < 11
    → i < 11
    → i ≢ o
    → All (λ x. NotIn x (o ∷ fl o)) (i ∷ fl i)
apart {s} {fl} o i v ho hi ne = (
  (ne, All-map (Desc s o) (λ y. i ≢ y) (fl o) (λ y d. omega (arith, d.above)) (v.descs o ho)),
  All-map (Desc s i) (λ x. NotIn x (o ∷ fl o)) (fl i)
      (λ x d. (
        omega (arith, d.above),
        All-map (Desc s o) (λ y. x ≢ y) (fl o)
            (λ y d' e. ne (sym d.order ∙ (ap s.order e ∙ d'.order))) (v.descs o ho),
      ))
      (v.descs i hi),
)
