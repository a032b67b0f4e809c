-- ===== src/Slub/Objects.antt =====
-- The objects of a slab page, and the page of an object.
use native.Mathlib.Decide.{dec_lt}
use lab.Base.{
  ℕ, suc, ◌+◌, ◌*◌, ◌/◌, ◌^◌, ◌≤◌, ◌<◌, ◌≡◌, ◌≢◌, refl, List, [], ◌∷◌, ◌++◌, ◌==◌, if◌then◌else◌,
  eq→==, ne→==, arith,
}
use lab.Slub.{page_size, aligned, objects_in}
use lab.Buddy.Lists.{pow_pos}
use lab.Slub.Layout.{Inside, objects-Inside}

-- The page that `kfree` takes an object for one of.
abbrev pub page_of : ℕ → ℕ
page_of o = o / page_size * page_size

abbrev pub class_size : ℕ → ℕ
class_size i = 8 * 2 ^ i

-- One of the objects that a page of class i has room for.
pub record IsObject (i sp o : ℕ) : Type 0 where
  pub index : ℕ
  pub below : index < objects_in (class_size i)
  pub place : o ≡ aligned sp (class_size i) + index * class_size i

IsObject-class : {sp o : ℕ} (i : ℕ) → i < 10 → IsObject i sp o → i < 9
IsObject-class i h x = elim (dec_lt i 9) [
  | yes less ↦ less
  | no more ↦
      let nine : i ≡ 9 = omega arith in
      let none : objects_in (class_size i) ≡ 0 = rw nine (unfold objects_in in refl) in
      absurd (omega (arith, none, x.below))
]

-- An object stands behind the header of its page, and as a whole in the page.
pub IsObject-place :
    {o : ℕ} (i sp : ℕ)
    → i < 10
    → page_of sp ≡ sp
    → IsObject i sp o
    → (sp + 32 ≤ o) × (o + class_size i ≤ sp + 4096)
IsObject-place {o} i sp h whole x =
    let p : sp / page_size * 4096 ≡ sp = whole in
    let inside = objects-Inside i (sp / page_size) x.index (IsObject-class i h x) x.below in
    let inside' : Inside sp (class_size i) x.index = rw p at (inside) in
    let next : (x.index + 1) * class_size i ≡ x.index * class_size i + class_size i = grind arith in
    (omega (arith, x.place, inside'.after_header), omega (arith, x.place, inside'.in_page, next))

pub page_of-object :
    {o : ℕ} (i sp : ℕ) → i < 10 → page_of sp ≡ sp → IsObject i sp o → page_of o ≡ sp
page_of-object {o} i sp h whole x =
    let (lo, hi) = IsObject-place i sp h whole x in omega (arith, whole, lo, hi, pow_pos i)

-- How many of the objects stand in the page.
unfoldable pub count : ℕ → List ℕ → ℕ
count sp [] = 0
count sp (o ∷ os) = (if page_of o == sp then 1 else 0) + count sp os

pub count_here : (sp o : ℕ) (os : List ℕ) → page_of o ≡ sp → count sp (o ∷ os) ≡ suc (count sp os)
unfolding count
count_here sp o os e = rw (eq→== (page_of o) sp e) (omega arith)

pub count_there : (sp o : ℕ) (os : List ℕ) → page_of o ≢ sp → count sp (o ∷ os) ≡ count sp os
unfolding count
count_there sp o os ne = rw (ne→== (page_of o) sp ne) (omega arith)

pub count-mid :
    (sp o : ℕ) (pre post : List ℕ) → count sp (pre ++ o ∷ post) ≡ count sp (o ∷ (pre ++ post))
unfolding count
count-mid sp o [] post = refl
count-mid sp o (x ∷ pre) post = omega (arith, count-mid sp o pre post)

pub objects_in-le : (size : ℕ) → objects_in size ≤ 4064
unfolding objects_in
objects_in-le size = grind arith
