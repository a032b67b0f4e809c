-- ===== src/Buddy/Remove.antt =====
-- `buddy_remove_free` on the lists.
use native.Mathlib.Decide.{ℕ_discrete}
use lab.Base.{
  ℕ, ◌+◌, ◌^◌, ◌≤◌, ◌<◌, ◌≡◌, refl, ap, List, ◌∷◌, ◌++◌, All, All-map, All-mid, All-remove, NotIn,
  ne→==, eq→==, arith,
}
use lab.LinkList.Ring.{Ring}
use lab.LinkList.Laws.{list_del-Ring, Ring-frame, list_del-outside}
use lab.Buddy.{State, buddy_remove_free}
use lab.Buddy.Lists.{
  Lists, update, sum_over, weigh, weigh-update, sum_over-remove, holds_page, cover,
}
use lab.Buddy.Holds.{Desc, Holds, apart}

module _ {s : State} {fl : Lists} (v : Holds s fl) (o p : ℕ) (ho : o < 11) (pre post : List ℕ)
    (e : fl o ≡ pre ++ p ∷ post) where
  s' : State
  s' = (buddy_remove_free p s).1

  fl' : Lists
  fl' = update o (pre ++ post) fl

  Ring-o : Ring s.links o (pre ++ p ∷ post)
  Ring-o = rw e at (v.rings o ho)

  descs_o : All (Desc s o) (pre ++ p ∷ post)
  descs_o = rw e at (v.descs o ho)

  Desc-p : Desc s o p
  Desc-p = All-mid _ pre post descs_o

  remove-Ring : (i : ℕ) → i < 11 → Ring s'.links i (fl' i)
  unfolding s' fl' buddy_remove_free
  remove-Ring i hi = elim (ℕ_discrete i o) [
    | yes q ↦ rw (q, eq→== o o refl) (list_del-Ring s.links p o pre post Ring-o)
    | no ne ↦
        let a = apart o i v ho hi ne in
        rw (ne→== i o ne) (
          Ring-frame (λ x. NotIn x (o ∷ fl o)) i (fl i)
            (λ x n. list_del-outside s.links o p pre post x Ring-o (n.0, (rw e at (n.1)))) a.0 a.1
            (v.rings i hi))
  ]

  keep-Desc : (i x : ℕ) → Desc s i x → Desc s' i x
  unfolding s' buddy_remove_free
  keep-Desc i x d = record { above = d.above; order = d.order; base = d.base }

  remove_descs : (i : ℕ) → i < 11 → All (Desc s' i) (fl' i)
  unfolding fl'
  remove_descs i hi = elim (ℕ_discrete i o) [
    | yes q ↦
        rw (q, eq→== o o refl)
          (All-map (Desc s o) (Desc s' o) (pre ++ post) (keep-Desc o)
            (All-remove _ pre post p descs_o))
    | no ne ↦ rw (ne→== i o ne) (All-map (Desc s i) (Desc s' i) (fl i) (keep-Desc i) (v.descs i hi))
  ]

  pub remove_weigh : (w : ℕ → ℕ → ℕ) → weigh w (update o (pre ++ post) fl) + w o p ≡ weigh w fl
  remove_weigh w = omega (
    arith,
    weigh-update w o (pre ++ post) fl ho,
    sum_over-remove (w o) pre post p,
    ap (sum_over (w o)) e,
  )

  pub remove_base : (buddy_remove_free p s).0 ≡ p
  unfolding buddy_remove_free
  remove_base = Desc-p.base

  pub remove_count : s.nr_free ≡ (buddy_remove_free p s).1.nr_free + 2 ^ o
  unfolding buddy_remove_free
  remove_count =
      let e' : 2 ^ (s.order p) ≡ 2 ^ o = ap (λ k. 2 ^ k) Desc-p.order in
      rw e' (omega (arith, v.count, v.small, remove_weigh (λ o p. 2 ^ o)))

  -- A block taken off its list leaves the others as they were.
  pub remove-Holds : Holds (buddy_remove_free p s).1 (update o (pre ++ post) fl)
  unfolding s' fl'
  remove-Holds = record {
    rings = remove-Ring;
    descs = remove_descs;
    disjoint = λ q. omega (arith, remove_weigh (holds_page q), v.disjoint q);
    count = omega (arith, remove_count, remove_weigh (λ o p. 2 ^ o), v.count);
    small = omega (arith, remove_weigh (λ o p. 2 ^ o), v.small);
  }

  -- None of its pages is free any more.
  pub remove_free : (q : ℕ) → p ≤ q → q < p + 2 ^ o → cover (update o (pre ++ post) fl) q ≡ 0
  remove_free q lo hi = ground (arith, remove_weigh (holds_page q), v.disjoint q)

  pub remove_above : 10 < p
  remove_above = Desc-p.above
