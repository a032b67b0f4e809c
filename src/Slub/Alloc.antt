-- ===== src/Slub/Alloc.antt =====
-- The two halves of `kmalloc` of kern/mm/slub.c: the walk to a slab with a free object, and taking it.
use native.Mathlib.Decide.{ℕ_discrete}
use lab.Base.{
  ℕ, zero, suc, ◌<◌, ◌≡◌, ◌≢◌, ◌⊎◌, inl, inr, refl, sym, ap, ◌∙◌, List, [], ◌∷◌, length, All, NotIn,
  eq→==, ne→==, done, arith,
}
use lab.Slub.{State, find_slab, take_object}
use lab.Slub.Chain.{Chain, Chain-first}
use lab.Slub.Reuse.{taken}
use lab.Slub.Objects.{page_of, IsObject, page_of-object}
use lab.Slub.Valid.{Ghost, IsValid, hand_out, taken-IsValid, fresh}

-- The walk over the slabs of a class ends, at one that has a free object or at none if all are full.
pub find_slab-Outcome :
    {P : Type 0} {Q : ℕ → Type 0} (k sp : ℕ) (xs : List ℕ) (s : State P)
    → Chain (λ a. (s.slabs a).next) sp xs
    → All Q xs
    → length xs < k
    → (found : ℕ) × (find_slab k sp s ≡ done found)
      × (((found ≡ 0) × All (λ x. (s.slabs x).free_list ≡ 0) xs)
          ⊎ ((found ≢ 0) × ((s.slabs found).free_list ≢ 0) × Q found))
unfolding find_slab
find_slab-Outcome zero sp xs s c q lt = absurd (omega arith)
find_slab-Outcome (suc k) sp [] s c q lt = (0, rw (eq→== sp 0 c) refl, inl (refl, tt))
find_slab-Outcome {Q = Q} (suc k) sp (x ∷ xs) s (e, ne, rest) q lt =
    let some_page : sp ≢ 0 = λ z. ne (sym e ∙ z) in
    elim (ℕ_discrete (s.slabs sp).free_list 0) [
      | yes full ↦
          let rest' : Chain (λ a. (s.slabs a).next) (s.slabs sp).next xs = rw e rest in
          let (found, run, what) =
            find_slab-Outcome {Q = Q} k (s.slabs sp).next xs s rest' q.1 (omega arith) in
          (
            found,
            rw (ne→== sp 0 some_page, eq→== (s.slabs sp).free_list 0 full) run,
            elim what [
              | inl (none_found, all) ↦ inl (none_found, (rw e at full, all))
              | inr some_found ↦ inr some_found
            ],
          )
      | no free ↦ (
        sp,
        rw (ne→== sp 0 some_page, ne→== (s.slabs sp).free_list 0 free) refl,
        inr (some_page, free, rw e q.0),
      )
    ]

-- An object of class i that was not handed out before is handed out.
pub record Handed (i : ℕ) (g : Ghost) (ptr : ℕ) (g' : Ghost) : Type 0 where
  pub nonzero : ptr ≢ 0
  pub new : NotIn ptr g.held
  pub held : g'.held ≡ ptr ∷ g.held
  pub class : g'.class (page_of ptr) ≡ i
  pub same : (q : ℕ) → g.class q < 10 → g'.class q ≡ g.class q
  pub others : (j : ℕ) → j ≢ i → g'.lists j ≡ g.lists j

pub take_object-Handed :
    {P : Type 0} (sp : ℕ) (s : State P) (g : Ghost)
    → IsValid s g
    → g.class sp < 10
    → (s.slabs sp).free_list ≢ 0
    → (ptr : ℕ) × (g' : Ghost) × (take_object sp s ≡ done (ptr, taken sp s))
      × Handed (g.class sp) g ptr g'
      × IsValid (taken sp s) g'
      × (g'.class ≡ g.class)
unfolding take_object taken
take_object-Handed sp s g v slab free =
    let w = v.slabs sp slab in
    let o = (s.slabs sp).free_list in
    let (fs, first) = Chain-first s.next o (g.free sp) free w.chain in
    let objects : All (IsObject (g.class sp) sp) (o ∷ fs) = rw first at (w.objects) in
    (
      o,
      hand_out sp o fs g,
      rw (ne→== o 0 free) refl,
      record {
        nonzero = free;
        new = fresh s g v sp o fs slab first;
        held = refl;
        class = ap g.class (page_of-object (g.class sp) sp slab w.whole objects.0);
        same = λ q h. refl;
        others = λ j ne. refl;
      },
      taken-IsValid s g v sp o fs slab first,
      refl,
    )

-- The slab allocator does not look into the page manager.
pub IsValid-pmm :
    {P : Type 0} (pmm : P) (s : State P) (g : Ghost)
    → IsValid s g
    → IsValid (record s { pmm = pmm }) g
IsValid-pmm pmm s g v = record {
  chains = v.chains;
  sizes = v.sizes;
  classes = v.classes;
  slabs = λ sp h.
      let w = v.slabs sp h in
      record {
        whole = w.whole;
        nonzero = w.nonzero;
        idx = w.idx;
        chain = w.chain;
        objects = w.objects;
        distinct = w.distinct;
        used = w.used;
        all = w.all;
      };
  objects = v.objects;
  distinct = v.distinct;
}
