-- ===== src/Slub/Freed.antt =====
-- What `kfree` does to a state of the slab allocator that is in order.
use mathlib.Core.Path.{subst}
use native.Mathlib.Decide.{ℕ_discrete}
use lab.Base.{
  ℕ, ◌+◌, ◌-◌, ◌^◌, ◌<◌, ◌≡◌, ◌≢◌, refl, sym, ap, ◌∙◌, List, ◌∷◌, ◌++◌, All, All-map, All-every,
  All-both, All-mid, All-remove, NotIn, Distinct, Distinct-remove, u32, arith,
}
use lab.Slub.{State, SlabPage, put, kfree}
use lab.Slub.Reuse.{freed, kfree-freed}
use lab.Slub.Chain.{Chain, Chain-frame, put_here, put_there}
use lab.Slub.Objects.{
  page_of, class_size, IsObject, IsObject-place, page_of-object, count, count_here, count_there,
  count-mid, objects_in-le,
}
use lab.Slub.Valid.{Ghost, IsSlab, IsHeld, IsValid}

-- An object is given back to its page.
abbrev pub give_back : ℕ → List ℕ → Ghost → Ghost
give_back o rest g = record g {
  free = put (page_of o) (o ∷ g.free (page_of o)) g.free;
  held = rest;
}

module _ {P : Type 0} (s : State P) (g : Ghost) (v : IsValid s g) (o : ℕ) (pre post : List ℕ)
    (had : g.held ≡ pre ++ o ∷ post) where
  holder : IsHeld g o
  holder = All-mid (IsHeld g) pre post (subst (λ xs. All (IsHeld g) xs) had v.objects)

  slab : IsSlab s g (page_of o)
  slab = v.slabs (page_of o) holder.class

  apart : NotIn o (pre ++ post) × Distinct (pre ++ post)
  apart = Distinct-remove pre post o (rw had at (v.distinct))

  counted : (q : ℕ) → count q g.held ≡ count q (o ∷ (pre ++ post))
  counted q = ap (count q) had ∙ count-mid q o pre post

  behind_header : 0 < o
  behind_header = omega (
    arith,
    (IsObject-place (g.class (page_of o)) (page_of o) holder.class slab.whole holder.object).0,
  )

  freed-Chain :
      (q p : ℕ)
      → NotIn o (g.free q)
      → Chain s.next p (g.free q)
      → Chain (freed (page_of o) o s).next p (g.free q)
  unfolding freed
  freed-Chain q p out c =
      Chain-frame s.next (put o (s.slabs (page_of o)).free_list s.next) p (g.free q)
        (All-map (λ x. o ≢ x) _ (g.free q)
          (λ x ne. put_there o x (s.slabs (page_of o)).free_list s.next (λ e. ne (sym e))) out)
        c

  freed-IsSlab : IsSlab (freed (page_of o) o s) (give_back o (pre ++ post) g) (page_of o)
  unfolding freed
  freed-IsSlab =
      let sp = page_of o in
      let here =
        put_here sp
          (record (s.slabs sp) { free_list = o; used = u32 ((s.slabs sp).used + 2 ^ 32 - 1) })
          s.slabs in
      let w = slab in
      let x = holder in
      let free_here = put_here sp (o ∷ g.free sp) g.free in
      let one = counted sp ∙ count_here sp o (pre ++ post) refl in
      record {
        whole = w.whole;
        nonzero = w.nonzero;
        idx = rw here w.idx;
        chain =
            rw (here, free_here)
              (
                refl,
                (λ e. absurd (omega (arith, behind_header))),
                rw (put_here o (s.slabs sp).free_list s.next)
                    (freed-Chain sp (s.slabs sp).free_list x.used w.chain),
              );
        objects = rw free_here (x.object, w.objects);
        distinct = rw free_here (x.used, w.distinct);
        used = rw here (omega (arith, w.used, one, w.all, objects_in-le (class_size (g.class sp))));
        all = rw free_here (omega (arith, w.all, one));
      }

  freed-other :
      (q : ℕ)
      → q ≢ page_of o
      → g.class q < 10
      → IsSlab (freed (page_of o) o s) (give_back o (pre ++ post) g) q
  unfolding freed
  freed-other q ne h =
      let sp = page_of o in
      let there =
        put_there sp q
          (record (s.slabs sp) { free_list = o; used = u32 ((s.slabs sp).used + 2 ^ 32 - 1) })
          s.slabs ne in
      let free_there = put_there sp q (o ∷ g.free sp) g.free ne in
      let same = counted q ∙ count_there q o (pre ++ post) (λ e. ne (sym e)) in
      let x = v.slabs q h in
      let out : NotIn o (g.free q) =
        All-map (IsObject (g.class q) q) (λ y. o ≢ y) (g.free q)
          (λ y ob e. ne (sym (page_of-object (g.class q) q h x.whole ob) ∙ ap page_of (sym e)))
          x.objects in
      record {
        whole = x.whole;
        nonzero = x.nonzero;
        idx = rw there x.idx;
        chain = rw (there, free_there) (freed-Chain q (s.slabs q).free_list out x.chain);
        objects = rw free_there x.objects;
        distinct = rw free_there x.distinct;
        used = rw there (x.used ∙ same);
        all = rw free_there (omega (arith, x.all, same));
      }

  freed-IsHeld : (h : ℕ) → o ≢ h → IsHeld g h → IsHeld (give_back o (pre ++ post) g) h
  freed-IsHeld h out x = record {
    class = x.class;
    object = x.object;
    used = elim (ℕ_discrete (page_of h) (page_of o)) [
      | yes e ↦
          let n : NotIn h (g.free (page_of o)) = rw e at (x.used) in
          rw (e, put_here (page_of o) (o ∷ g.free (page_of o)) g.free) ((λ z. out (sym z)), n)
      | no ne ↦ rw (put_there (page_of o) (page_of h) (o ∷ g.free (page_of o)) g.free ne) x.used
    ];
  }

  freed-next : (a : ℕ) → ((freed (page_of o) o s).slabs a).next ≡ (s.slabs a).next
  unfolding freed
  freed-next a = elim (ℕ_discrete a (page_of o)) [
    | yes e ↦ rw e (ap (λ (x : SlabPage). x.next) (put_here (page_of o) _ s.slabs))
    | no ne ↦ ap (λ (x : SlabPage). x.next) (put_there (page_of o) a _ s.slabs ne)
  ]

  freed-IsValid : IsValid (freed (page_of o) o s) (give_back o (pre ++ post) g)
  unfolding freed
  freed-IsValid = record {
    chains = λ i h.
        Chain-frame (λ a. (s.slabs a).next) (λ a. ((freed (page_of o) o s).slabs a).next)
          (s.caches i).pages (g.lists i) (All-every _ (g.lists i) freed-next) (v.chains i h);
    sizes = v.sizes;
    classes = v.classes;
    slabs = λ q h. elim (ℕ_discrete q (page_of o)) [
      | yes e ↦ rw e freed-IsSlab
      | no ne ↦ freed-other q ne h
    ];
    objects =
        All-map (λ h. (o ≢ h) × IsHeld g h) _ (pre ++ post) (λ h x. freed-IsHeld h x.0 x.1)
          (All-both _ (IsHeld g) (pre ++ post) apart.0
            (All-remove (IsHeld g) pre post o (subst (λ xs. All (IsHeld g) xs) had v.objects)));
    distinct = apart.1;
  }

  -- kfree of an object that was handed out keeps the state of the slabs in order: the object is in
  -- front of the free list of its page, the page counts one object less, and just the others are
  -- still handed out.
  pub kfree-IsValid : IsValid (kfree o s) (give_back o (pre ++ post) g)
  kfree-IsValid =
      let sp = page_of o in
      let idx : (s.slabs sp).cache_idx < 10 = rw slab.idx holder.class in
      rw (kfree-freed o sp s refl slab.nonzero idx) freed-IsValid
