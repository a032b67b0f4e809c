-- ===== src/Buddy/Add.antt =====
-- `buddy_add_free` on the lists.
use native.Mathlib.Decide.{ℕ_discrete}
use lab.Base.{
  ℕ, ◌+◌, ◌^◌, ◌≤◌, ◌<◌, ◌≡◌, ◌≢◌, refl, sym, List, [], ◌∷◌, All, NotIn, ne→==, eq→==, arith,
}
use lab.LinkList.Ring.{Ring}
use lab.LinkList.Laws.{list_add-Ring, Ring-frame, list_add-outside}
use lab.Buddy.{State, put, buddy_add_free}
use lab.Buddy.Lists.{
  Lists, update, sum_over, weigh, weigh-update, holds_page, free_pages_in, cover, NotIn_of_cover,
  pow_pos,
}
use lab.Buddy.Holds.{Desc, Holds, apart}

module _ {s : State} {fl : Lists} (v : Holds s fl) (o p : ℕ) (ho : o < 11) (above : 10 < p)
    (free : (q : ℕ) → p ≤ q → q < p + 2 ^ o → cover fl q ≡ 0)
    (room : free_pages_in fl + 2 ^ o < 2 ^ 32) where
  s' : State
  s' = buddy_add_free p o s

  fl' : Lists
  fl' = update o (p ∷ fl o) fl

  fresh : (i : ℕ) → i < 11 → NotIn p (fl i)
  fresh i hi = NotIn_of_cover fl p i hi (free p (omega arith) (omega (arith, pow_pos o)))

  add-Ring : (i : ℕ) → i < 11 → Ring s'.links i (fl' i)
  unfolding s' fl' buddy_add_free
  add-Ring i hi = elim (ℕ_discrete i o) [
    | yes e ↦
        rw (e, eq→== o o refl)
          (list_add-Ring s.links p o [] (fl o) (omega arith, fresh o ho) (v.rings o ho))
    | no ne ↦ rw (ne→== i o ne) (
        Ring-frame (λ x. NotIn x (p ∷ o ∷ fl o)) i (fl i)
          (λ x n. list_add-outside s.links o p (fl o) x (v.rings o ho) n)
          (omega arith, (apart o i v ho hi ne).0)
          (both (fl i) (fresh i hi) (apart o i v ho hi ne).1) (v.rings i hi))
  ]
    where
      both :
          (xs : List ℕ)
          → NotIn p xs
          → All (λ x. NotIn x (o ∷ fl o)) xs
          → All (λ x. NotIn x (p ∷ o ∷ fl o)) xs
      both [] n a = tt
      both (x ∷ xs) n a = (((λ e. n.0 (sym e)), a.0), both xs n.1 a.1)

  keep-Desc : (i x : ℕ) → p ≢ x → Desc s i x → Desc s' i x
  unfolding s' buddy_add_free put
  keep-Desc i x ne d = record {
    above = d.above;
    order = ground (arith, d.order);
    base = ground (arith, d.base);
  }

  keep_descs : (i : ℕ) (xs : List ℕ) → NotIn p xs → All (Desc s i) xs → All (Desc s' i) xs
  keep_descs i [] n d = tt
  keep_descs i (x ∷ xs) n d = (keep-Desc i x n.0 d.0, keep_descs i xs n.1 d.1)

  add_descs : (i : ℕ) → i < 11 → All (Desc s' i) (fl' i)
  unfolding fl'
  add_descs i hi = elim (ℕ_discrete i o) [
    | yes e ↦ rw (e, eq→== o o refl) (new, keep_descs o (fl o) (fresh o ho) (v.descs o ho))
    | no ne ↦ rw (ne→== i o ne) (keep_descs i (fl i) (fresh i hi) (v.descs i hi))
  ]
    where
      new : Desc s' o p
      new =
          unfold s' buddy_add_free put in
          record { above = above; order = ground arith; base = ground arith }

  pub add_weigh : (w : ℕ → ℕ → ℕ) → weigh w (update o (p ∷ fl o) fl) ≡ weigh w fl + w o p
  unfolding sum_over
  add_weigh w = omega (arith, weigh-update w o (p ∷ fl o) fl ho)

  -- A block that no free block shares a page with is added to its list.
  pub add-Holds : Holds (buddy_add_free p o s) (update o (p ∷ fl o) fl)
  unfolding s' fl'
  add-Holds = record {
    rings = add-Ring;
    descs = add_descs;
    disjoint = λ q. ground (arith, add_weigh (holds_page q), free q, v.disjoint q);
    count = unfold buddy_add_free in omega (arith, add_weigh (λ o p. 2 ^ o), v.count, v.small);
    small = omega (arith, add_weigh (λ o p. 2 ^ o));
  }
