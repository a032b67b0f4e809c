-- ===== src/Slub/Areas.antt =====
-- Areas in use and the free objects, seen from a state of the slab allocator that is in order.
use native.Mathlib.Decide.{ℕ_discrete}
use lab.Buddy.Lists.{pow_pos}
use lab.Base.{
  ℕ, ◌≤◌, ◌<◌, ◌≡◌, ◌≢◌, inl, inr, refl, sym, ap, ◌∙◌, List, [], ◌∷◌, ◌++◌, All, All-map, All-both,
  Distinct, arith,
}
use lab.Slub.{State}
use lab.Slub.Apart.{Apart, objects-Apart}
use lab.Slub.Chain.{Chain-frame}
use lab.Slub.Objects.{page_of, class_size, IsObject, page_of-object}
use lab.Slub.Valid.{Ghost, IsHeld, IsValid}
use lab.Slub.Use.{Area, ptrs, Separate, Outside}

-- The area of an object is no larger than the object.
abbrev pub Fits : Ghost → Area → Type 0
Fits g a = a.size ≤ class_size (g.class (page_of a.ptr))

-- Other memory than the free objects may be written.
pub write-IsValid :
    {P : Type 0} (s : State P) (g : Ghost) (next' : ℕ → ℕ)
    → ((q : ℕ) → g.class q < 10 → All (λ x. next' x ≡ s.next x) (g.free q))
    → IsValid s g
    → IsValid (record s { next = next' }) g
write-IsValid s g next' same v = record {
  chains = v.chains;
  sizes = v.sizes;
  classes = v.classes;
  slabs = λ sp h.
      let w = v.slabs sp h in
      record {
        whole = w.whole;
        nonzero = w.nonzero;
        idx = w.idx;
        chain = Chain-frame s.next next' (s.slabs sp).free_list (g.free sp) (same sp h) w.chain;
        objects = w.objects;
        distinct = w.distinct;
        used = w.used;
        all = w.all;
      };
  objects = v.objects;
  distinct = v.distinct;
}

pub ptrs-append : (xs ys : List Area) → ptrs (xs ++ ys) ≡ ptrs xs ++ ptrs ys
ptrs-append [] ys = refl
ptrs-append (x ∷ xs) ys = ap (λ zs. x.ptr ∷ zs) (ptrs-append xs ys)

pub All-ptrs : (Q : ℕ → Type 0) (areas : List Area) → All Q (ptrs areas) → All (λ a. Q a.ptr) areas
All-ptrs Q [] h = tt
All-ptrs Q (a ∷ areas) h = (h.0, All-ptrs Q areas h.1)

Apart-smaller : (p n q m n' m' : ℕ) → n ≤ n' → m ≤ m' → Apart p n' q m' → Apart p n q m
Apart-smaller p n q m n' m' a b (inl h) = inl (omega arith)
Apart-smaller p n q m n' m' a b (inr h) = inr (omega arith)

pub areas-Separate :
    (g : Ghost) (areas : List Area)
    → All (IsHeld g) (ptrs areas)
    → Distinct (ptrs areas)
    → All (Fits g) areas
    → Separate areas
areas-Separate g [] held distinct fits = tt
areas-Separate g (a ∷ areas) held distinct fits = (
  All-map (λ b. (a.ptr ≢ b.ptr) × (IsHeld g b.ptr × Fits g b))
      (λ b. Apart a.ptr a.size b.ptr b.size) areas
      (λ b h.
        let (ne, rest) = h in
        let (x, fit) = rest in
        Apart-smaller a.ptr a.size b.ptr b.size (class_size (g.class (page_of a.ptr)))
          (class_size (g.class (page_of b.ptr))) fits.0 fit
          (objects-Apart g.class a.ptr b.ptr held.0.class x.class held.0.object x.object ne))
      (All-both _ _ areas (All-ptrs (λ q. a.ptr ≢ q) areas distinct.0)
        (All-both _ _ areas (All-ptrs (IsHeld g) areas held.1) fits.1)),
  areas-Separate g areas held.1 distinct.1 fits.1,
)

-- A free object lies in no area.
pub free-Outside :
    {P : Type 0} (s : State P) (g : Ghost) (q : ℕ) (a : Area)
    → IsValid s g
    → g.class q < 10
    → IsHeld g a.ptr
    → Fits g a
    → All (λ x. Outside x a) (g.free q)
free-Outside s g q a v h held fit =
    let w = v.slabs q h in
    let differ : All (λ x. x ≢ a.ptr) (g.free q) = elim (ℕ_discrete (page_of a.ptr) q) [
      | yes e ↦ All-map (λ x. a.ptr ≢ x) _ (g.free q) (λ x ne z. ne (sym z)) (rw e at held.used)
      | no ne ↦
          All-map (IsObject (g.class q) q) _ (g.free q)
            (λ x ob z. ne (ap page_of (sym z) ∙ page_of-object (g.class q) q h w.whole ob))
            w.objects
    ] in
    All-map (λ x. (x ≢ a.ptr) × IsObject (g.class q) q x) (λ x. Outside x a) (g.free q)
      (λ x y.
        let page = page_of-object (g.class q) q h w.whole y.1 in
        outside x (class_size (g.class (page_of x))) (omega (arith, pow_pos (g.class (page_of x))))
          (objects-Apart g.class x a.ptr (rw page h) held.class (rw page y.1) held.object y.0))
      (All-both _ _ (g.free q) differ w.objects)
  where
    outside :
        (x n : ℕ) → 0 < n → Apart x n a.ptr (class_size (g.class (page_of a.ptr))) → Outside x a
    outside x n pos (inl l) = inl (omega arith)
    outside x n pos (inr l) = inr (omega (arith, fit))
