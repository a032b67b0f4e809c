-- ===== src/Slub/Apart.antt =====
-- Two objects of the slab allocator do not overlap.
use native.Mathlib.Decide.{ℕ_discrete, dec_lt}
use lab.Base.{ℕ, ◌+◌, ◌*◌, ◌≤◌, ◌<◌, ◌≡◌, ◌≢◌, ◌⊎◌, suc, inl, inr, sym, ap, ◌∙◌, arith}
use native.Mathlib.Nat.{mul-le-mul_right}
use lab.Slub.{aligned}
use lab.Slub.Objects.{page_of, class_size, IsObject, IsObject-place}

-- Of two areas, given by address and size, one ends before the other begins.
abbrev pub Apart : ℕ → ℕ → ℕ → ℕ → Type 0
Apart p n q m = (p + n ≤ q) ⊎ (q + m ≤ p)

-- A smaller multiple ends before a larger one begins.
multiple_before : (a i j size : ℕ) → i < j → a + i * size + size ≤ a + j * size
multiple_before a i j size h =
    let le : suc i * size ≤ j * size = mul-le-mul_right size h in
    let e : suc i * size ≡ i * size + size = grind arith in omega (arith, le, e)

-- Two objects of a page.
same_page :
    (i sp p q : ℕ)
    → IsObject i sp p
    → IsObject i sp q
    → p ≢ q
    → Apart p (class_size i) q (class_size i)
same_page i sp p q x y ne = elim (dec_lt x.index y.index) [
  | yes less ↦ inl (
      omega (
        arith,
        x.place,
        y.place,
        multiple_before (aligned sp (class_size i)) x.index y.index (class_size i) less,
      ))
  | no more ↦ elim (dec_lt y.index x.index) [
    | yes less ↦ inr (
        omega (
          arith,
          x.place,
          y.place,
          multiple_before (aligned sp (class_size i)) y.index x.index (class_size i) less,
        ))
    | no equal ↦
        let e : x.index ≡ y.index = omega arith in
        absurd
          (ne (x.place ∙ (ap (λ j. aligned sp (class_size i) + j * class_size i) e ∙ sym y.place)))
  ]
]

-- Objects of pages of some class, free or handed out.
pub objects-Apart :
    (c : ℕ → ℕ) (p q : ℕ)
    → c (page_of p) < 10
    → c (page_of q) < 10
    → IsObject (c (page_of p)) (page_of p) p
    → IsObject (c (page_of q)) (page_of q) q
    → p ≢ q
    → Apart p (class_size (c (page_of p))) q (class_size (c (page_of q)))
objects-Apart c p q hp hq x y ne = elim (ℕ_discrete (page_of p) (page_of q)) [
  | yes e ↦
      let x' : IsObject (c (page_of q)) (page_of q) p = rw e at x in
      rw e (same_page (c (page_of q)) (page_of q) p q x' y ne)
  | no other ↦
      let (lo, hi) = IsObject-place (c (page_of p)) (page_of p) hp (omega arith) x in
      let (lo', hi') = IsObject-place (c (page_of q)) (page_of q) hq (omega arith) y in
      elim (dec_lt (page_of p) (page_of q)) [
        | yes less ↦ inl (omega (arith, other))
        | no more ↦ inr (omega (arith, other))
      ]
]
