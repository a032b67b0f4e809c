-- ===== src/Slub/Added.antt =====
-- A state of the slab allocator that is in order stays so when a class gets a new page.
use native.Mathlib.Decide.{ℕ_discrete}
use lab.Base.{
  ℕ, ◌≤◌, ◌<◌, ◌≡◌, ◌≢◌, refl, sym, ap, ◌∙◌, List, [], ◌∷◌, length, All, All-map, Distinct, arith,
}
use lab.Slub.{State, SlabPage, put, objects_in}
use lab.Slub.Chain.{Chain, Chain-frame, put_here, put_there}
use lab.Slub.Objects.{page_of, class_size, IsObject, page_of-object, count, count_there}
use lab.Slub.Valid.{Ghost, IsSlab, IsHeld, IsValid}

-- The page sp becomes the first one of class i, with the free objects `os`.
pub record IsAdded {P : Type 0} (i sp : ℕ) (os : List ℕ) (s s' : State P) : Type 0 where
  pub whole : page_of sp ≡ sp
  pub nonzero : 0 < sp
  pub front : (s'.slabs sp).next ≡ (s.caches i).pages
  pub idx : (s'.slabs sp).cache_idx ≡ i
  pub used : (s'.slabs sp).used ≡ 0
  pub chain : Chain s'.next (s'.slabs sp).free_list os
  pub objects : All (IsObject i sp) os
  pub distinct : Distinct os
  pub all : length os ≡ objects_in (class_size i)
  pub others : (q : ℕ) → q ≢ sp → s'.slabs q ≡ s.slabs q
  pub memory : (x : ℕ) → page_of x ≢ sp → s'.next x ≡ s.next x
  pub first : (s'.caches i).pages ≡ sp
  pub size : (s'.caches i).obj_size ≡ (s.caches i).obj_size
  pub classes : (j : ℕ) → j ≢ i → s'.caches j ≡ s.caches j

abbrev pub add_page : ℕ → ℕ → List ℕ → Ghost → Ghost
add_page i sp os g = record g {
  class = put sp i g.class;
  lists = put i (sp ∷ g.lists i) g.lists;
  free = put sp os g.free;
}

count_none : (sp : ℕ) (os : List ℕ) → All (λ o. page_of o ≢ sp) os → count sp os ≡ 0
unfolding count
count_none sp [] h = refl
count_none sp (o ∷ os) h = count_there sp o os h.0 ∙ count_none sp os h.1

module _ {P : Type 0} (i sp : ℕ) (os : List ℕ) (s s' : State P) (g : Ghost) (v : IsValid s g)
    (added : IsAdded i sp os s s') (new : 10 ≤ g.class sp) (small : i < 10) where
  other_page : (q : ℕ) → g.class q < 10 → q ≢ sp
  other_page q h e = let same : g.class q ≡ g.class sp = ap g.class e in absurd (omega arith)

  added-IsSlab : IsSlab s' (add_page i sp os g) sp
  added-IsSlab =
      let class = put_here sp i g.class in
      let free = put_here sp os g.free in
      let none = count_none sp g.held (
        All-map (IsHeld g) (λ o. page_of o ≢ sp) g.held (λ o h. other_page (page_of o) h.class)
          v.objects) in
      record {
        whole = added.whole;
        nonzero = added.nonzero;
        idx = rw class added.idx;
        chain = rw free added.chain;
        objects = rw (class, free) added.objects;
        distinct = rw free added.distinct;
        used = rw none added.used;
        all = rw (class, free) (omega (arith, none, added.all));
      }

  added-other : (q : ℕ) → q ≢ sp → g.class q < 10 → IsSlab s' (add_page i sp os g) q
  added-other q ne h =
      let x = v.slabs q h in
      let class = put_there sp q i g.class ne in
      let free = put_there sp q os g.free ne in
      let here = added.others q ne in
      let same =
        All-map (IsObject (g.class q) q) (λ o. s'.next o ≡ s.next o) (g.free q)
          (λ o ob. added.memory o (λ e. ne (sym (page_of-object (g.class q) q h x.whole ob) ∙ e)))
          x.objects in
      record {
        whole = x.whole;
        nonzero = x.nonzero;
        idx = rw (here, class) x.idx;
        chain =
            rw (here, free)
              (Chain-frame s.next s'.next (s.slabs q).free_list (g.free q) same x.chain);
        objects = rw (class, free) x.objects;
        distinct = rw free x.distinct;
        used = rw here x.used;
        all = rw (class, free) x.all;
      }

  added-IsHeld : (o : ℕ) → IsHeld g o → IsHeld (add_page i sp os g) o
  added-IsHeld o x =
      let ne = other_page (page_of o) x.class in
      let class = put_there sp (page_of o) i g.class ne in
      let free = put_there sp (page_of o) os g.free ne in
      record { class = rw class x.class; object = rw class x.object; used = rw free x.used }

  -- The pages of a class before.
  old_pages : (j : ℕ) → j < 10 → Chain (λ a. (s'.slabs a).next) (s.caches j).pages (g.lists j)
  old_pages j h =
      Chain-frame (λ a. (s.slabs a).next) (λ a. (s'.slabs a).next) (s.caches j).pages (g.lists j)
        (All-map (λ q. g.class q ≡ j) _ (g.lists j)
          (λ q e. ap (λ (x : SlabPage). x.next) (added.others q (other_page q (omega arith))))
          (v.classes j h))
        (v.chains j h)

  old_classes : (j : ℕ) → j < 10 → All (λ q. put sp i g.class q ≡ j) (g.lists j)
  old_classes j h =
      All-map (λ q. g.class q ≡ j) _ (g.lists j)
        (λ q e. put_there sp q i g.class (other_page q (omega arith)) ∙ e) (v.classes j h)

  -- The state is in order with the page that was added.
  pub added-IsValid : IsValid s' (add_page i sp os g)
  added-IsValid = record {
    chains = λ j h. elim (ℕ_discrete j i) [
      | yes e ↦
          rw (e, put_here i (sp ∷ g.lists i) g.lists, added.first)
            (refl, (λ z. absurd (omega (arith, added.nonzero))), rw added.front (old_pages i small))
      | no ne ↦ rw (put_there i j (sp ∷ g.lists i) g.lists ne, added.classes j ne) (old_pages j h)
    ];
    sizes = λ j h. elim (ℕ_discrete j i) [
      | yes e ↦ rw e (added.size ∙ v.sizes i small)
      | no ne ↦ rw (added.classes j ne) (v.sizes j h)
    ];
    classes = λ j h. elim (ℕ_discrete j i) [
      | yes e ↦
          rw (e, put_here i (sp ∷ g.lists i) g.lists) (put_here sp i g.class, old_classes i small)
      | no ne ↦ rw (put_there i j (sp ∷ g.lists i) g.lists ne) (old_classes j h)
    ];
    slabs = λ q h. elim (ℕ_discrete q sp) [
      | yes e ↦ rw e added-IsSlab
      | no ne ↦ added-other q ne (rw (put_there sp q i g.class ne) at h)
    ];
    objects = All-map (IsHeld g) (IsHeld (add_page i sp os g)) g.held added-IsHeld v.objects;
    distinct = v.distinct;
  }
