-- ===== src/Slub/Valid.antt =====
-- When a state of the slab allocator is in order: every page of a class is split into free objects,
-- which its free list leads through, and objects that were handed out, which its header counts.
use native.Mathlib.Decide.{ℕ_discrete}
use mathlib.Core.Path.{subst}
use lab.Base.{
  ℕ, suc, ◌+◌, ◌<◌, ◌≡◌, ◌≢◌, refl, sym, ap, ◌∙◌, List, ◌∷◌, length, All, All-map, All-every, NotIn,
  Distinct, u32, arith,
}
use lab.Slub.{State, SlabPage, put, objects_in}
use lab.Slub.Reuse.{taken}
use lab.Slub.Chain.{Chain, Chain-frame, put_here, put_there}
use lab.Slub.Objects.{
  page_of, class_size, IsObject, page_of-object, count, count_here, count_there, objects_in-le,
}

-- What the state does not show: the class of each slab page (10 or more for other pages), the pages of
-- each class, the free objects of each page, and all objects that were handed out.
pub record Ghost : Type 0 where
  pub class : ℕ → ℕ
  pub lists : ℕ → List ℕ
  pub free : ℕ → List ℕ
  pub held : List ℕ

pub record IsSlab {P : Type 0} (s : State P) (g : Ghost) (sp : ℕ) : Type 0 where
  pub whole : page_of sp ≡ sp
  pub nonzero : 0 < sp
  pub idx : (s.slabs sp).cache_idx ≡ g.class sp
  pub chain : Chain s.next (s.slabs sp).free_list (g.free sp)
  pub objects : All (IsObject (g.class sp) sp) (g.free sp)
  pub distinct : Distinct (g.free sp)
  pub used : (s.slabs sp).used ≡ count sp g.held
  pub all : count sp g.held + length (g.free sp) ≡ objects_in (class_size (g.class sp))

-- An object of a slab page that is not free.
pub record IsHeld (g : Ghost) (o : ℕ) : Type 0 where
  pub class : g.class (page_of o) < 10
  pub object : IsObject (g.class (page_of o)) (page_of o) o
  pub used : NotIn o (g.free (page_of o))

pub record IsValid {P : Type 0} (s : State P) (g : Ghost) : Type 0 where
  pub chains : (i : ℕ) → i < 10 → Chain (λ a. (s.slabs a).next) (s.caches i).pages (g.lists i)
  pub sizes : (i : ℕ) → i < 10 → (s.caches i).obj_size ≡ class_size i
  pub classes : (i : ℕ) → i < 10 → All (λ sp. g.class sp ≡ i) (g.lists i)
  pub slabs : (sp : ℕ) → g.class sp < 10 → IsSlab s g sp
  pub objects : All (IsHeld g) g.held
  pub distinct : Distinct g.held

-- The first free object of a page is handed out.
abbrev pub hand_out : ℕ → ℕ → List ℕ → Ghost → Ghost
hand_out sp o fs g = record g { free = put sp fs g.free; held = o ∷ g.held }

module _ {P : Type 0} (s : State P) (g : Ghost) (v : IsValid s g) (sp o : ℕ) (fs : List ℕ)
    (slab : g.class sp < 10) (first : g.free sp ≡ o ∷ fs) where
  free_objects : All (IsObject (g.class sp) sp) (o ∷ fs)
  free_objects = subst (All (IsObject (g.class sp) sp)) first (v.slabs sp slab).objects

  distinct : Distinct (o ∷ fs)
  distinct = subst Distinct first (v.slabs sp slab).distinct

  page : page_of o ≡ sp
  page = page_of-object (g.class sp) sp slab (v.slabs sp slab).whole free_objects.0

  taken-IsSlab : IsSlab (taken sp s) (hand_out sp o fs g) sp
  unfolding taken
  taken-IsSlab =
      let w = v.slabs sp slab in
      let here =
        put_here sp
          (record (s.slabs sp) {
            free_list = s.next (s.slabs sp).free_list;
            used = u32 ((s.slabs sp).used + 1);
          })
          s.slabs in
      let chain : Chain s.next (s.slabs sp).free_list (o ∷ fs) = rw first at (w.chain) in
      let all : count sp g.held + suc (length fs) ≡ objects_in (class_size (g.class sp)) =
        rw first at (w.all) in
      record {
        whole = w.whole;
        nonzero = w.nonzero;
        idx = rw here w.idx;
        chain = rw (here, put_here sp fs g.free, chain.0) chain.2;
        objects = rw (put_here sp fs g.free) free_objects.1;
        distinct = rw (put_here sp fs g.free) distinct.1;
        used =
            rw (here, count_here sp o g.held page)
              (omega (arith, w.used, all, objects_in-le (class_size (g.class sp))));
        all = rw (count_here sp o g.held page, put_here sp fs g.free) (omega (arith, all));
      }

  taken-other : (q : ℕ) → q ≢ sp → g.class q < 10 → IsSlab (taken sp s) (hand_out sp o fs g) q
  unfolding taken
  taken-other q ne h =
      let there =
        put_there sp q
          (record (s.slabs sp) {
            free_list = s.next (s.slabs sp).free_list;
            used = u32 ((s.slabs sp).used + 1);
          })
          s.slabs ne in
      let same = count_there q o g.held (λ e. ne (sym e ∙ page)) in
      let x = v.slabs q h in
      record {
        whole = x.whole;
        nonzero = x.nonzero;
        idx = rw there x.idx;
        chain = rw (there, put_there sp q fs g.free ne) x.chain;
        objects = rw (put_there sp q fs g.free ne) x.objects;
        distinct = rw (put_there sp q fs g.free ne) x.distinct;
        used = rw (there, same) x.used;
        all = rw (same, put_there sp q fs g.free ne) x.all;
      }

  taken-IsHeld : (h : ℕ) → IsHeld g h → IsHeld (hand_out sp o fs g) h
  taken-IsHeld h x = record {
    class = x.class;
    object = x.object;
    used = elim (ℕ_discrete (page_of h) sp) [
      | yes e ↦
          let n : NotIn h (o ∷ fs) = rw (e, first) at (x.used) in rw (e, put_here sp fs g.free) n.1
      | no ne ↦ rw (put_there sp (page_of h) fs g.free ne) x.used
    ];
  }

  taken-next : (a : ℕ) → ((taken sp s).slabs a).next ≡ (s.slabs a).next
  unfolding taken
  taken-next a = elim (ℕ_discrete a sp) [
    | yes e ↦ rw e (ap (λ (x : SlabPage). x.next) (put_here sp _ s.slabs))
    | no ne ↦ ap (λ (x : SlabPage). x.next) (put_there sp a _ s.slabs ne)
  ]

  fresh-IsHeld : IsHeld (hand_out sp o fs g) o
  fresh-IsHeld = record {
    class = rw page slab;
    object = rw page free_objects.0;
    used = rw (page, put_here sp fs g.free) distinct.0;
  }

  -- A free object was not handed out before.
  pub fresh : NotIn o g.held
  fresh =
      All-map (IsHeld g) (λ h. o ≢ h) g.held
        (λ h x e.
          let y : IsHeld g o = subst (IsHeld g) (sym e) x in
          let n : NotIn o (o ∷ fs) = rw (page, first) at (y.used) in n.0 refl)
        v.objects

  -- The state is in order after the first free object of a page is taken.
  pub taken-IsValid : IsValid (taken sp s) (hand_out sp o fs g)
  unfolding taken
  taken-IsValid = record {
    chains = λ i h.
        Chain-frame (λ a. (s.slabs a).next) (λ a. ((taken sp s).slabs a).next) (s.caches i).pages
          (g.lists i) (All-every _ (g.lists i) taken-next) (v.chains i h);
    sizes = v.sizes;
    classes = v.classes;
    slabs =
        λ q h. elim (ℕ_discrete q sp) [ yes e ↦ rw e taken-IsSlab | no ne ↦ taken-other q ne h ];
    objects = (
      fresh-IsHeld,
      All-map (IsHeld g) (IsHeld (hand_out sp o fs g)) g.held taken-IsHeld v.objects,
    );
    distinct = (fresh, v.distinct);
  }
