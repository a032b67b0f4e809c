-- ===== src/Slub/Page.antt =====
-- The page that `alloc_slab_page` of kern/mm/slub.c sets up and puts in front of the slabs of a class.
use lab.Base.{
  ℕ, ◌+◌, ◌-◌, ◌*◌, ◌≤◌, ◌<◌, ◌≡◌, ◌≢◌, refl, ap, ◌∙◌, [], le→ltb, lt→leb, le→leb, arith,
}
use native.Mathlib.Decide.{dec_lt}
use native.Mathlib.Nat.{lt-div-mul-add, le-div_iff_mul-le}
use lab.Buddy.Lists.{pow_pos}
use lab.Buddy.Order.{pow_mono}
use lab.Slub.{
  State, SlabPage, Cache, put, objects_in, aligned, page_size, header_size, clear_page,
  slab_page_init, thread_objects,
}
use lab.Slub.Chain.{Chain-nonzero, put_here, put_there}
use lab.Slub.Objects.{page_of, class_size, IsObject, page_of-object}
use lab.Slub.Added.{IsAdded}
use lab.Slub.Thread.{Threaded, thread_objects-Threaded, thread_objects-frame}

-- The state in which the new page is the first one of class i.
abbrev pub with_page : {P : Type 0} → ℕ → ℕ → State P → State P
with_page i sp s =
    let c = s.caches i in
    let s1 = slab_page_init sp c.obj_size i (clear_page sp s) in
    record s1 {
      slabs = put sp (record (s1.slabs sp) { next = c.pages }) s1.slabs;
      caches = put i (record c { pages = sp }) s1.caches;
    }

-- Clearing a page writes nothing outside of it.
cleared :
    {P : Type 0} (sp x : ℕ) (s : State P)
    → page_of sp ≡ sp
    → page_of x ≢ sp
    → (clear_page sp s).next x ≡ s.next x
unfolding clear_page
cleared sp x s whole ne = elim (dec_lt x sp) [
  | yes less ↦ rw (lt→leb sp x less) refl
  | no more ↦
      let behind : sp + page_size ≤ x = elim (dec_lt x (sp + 4096)) [
        | yes inside ↦ absurd (ne (omega (arith, whole)))
        | no h ↦ omega arith
      ] in
      rw (le→ltb x (sp + page_size) behind, le→leb sp x (omega arith)) refl
]

aligned_above : (sp size : ℕ) → 0 < size → sp + header_size ≤ aligned sp size
unfolding aligned
aligned_above sp size pos = omega (arith, lt-div-mul-add {a = sp + 32 + size - 1} {b = size} pos)

objects_in-pos : (i : ℕ) → i < 9 → 0 < objects_in (class_size i)
unfolding objects_in
objects_in-pos i low =
    (le-div_iff_mul-le (omega (arith, pow_pos i))).1 (omega (arith, pow_mono i 8 (omega arith)))

module _ {P : Type 0} (i sp : ℕ) (s : State P) (small : i < 10) (pos : 0 < sp)
    (whole : page_of sp ≡ sp) (size : (s.caches i).obj_size ≡ class_size i) where
  abbrev pub list : ℕ × (ℕ → ℕ)
  list =
      thread_objects (objects_in (class_size i)) (aligned sp (class_size i)) (class_size i) 0 0
        (clear_page sp s).next

  abbrev slab : SlabPage
  slab = record {
    next = (s.caches i).pages;
    free_list = list.0;
    used = 0;
    obj_per_page = objects_in (class_size i);
    cache_idx = i;
  }

  header : (with_page i sp s).slabs sp ≡ slab
  unfolding slab_page_init
  header = rw size (
      put_here sp _ _
      ∙ ap (λ (x : SlabPage). record x { next = (s.caches i).pages }) (put_here sp _ _))

  memory : (with_page i sp s).next ≡ list.1
  unfolding slab_page_init
  memory = rw size refl

  others : (q : ℕ) → q ≢ sp → (with_page i sp s).slabs q ≡ s.slabs q
  unfolding slab_page_init clear_page
  others q ne = put_there sp q _ _ ne ∙ (put_there sp q _ _ ne ∙ put_there sp q _ _ ne)

  object :
      (j : ℕ)
      → 0 ≤ j
      → j < 0 + objects_in (class_size i)
      → IsObject i sp (aligned sp (class_size i) + j * class_size i)
  object j l h = record { index = j; below = omega arith; place = refl }

  pub threaded : Threaded (IsObject i sp) (0 + objects_in (class_size i)) list
  unfolding aligned
  threaded =
      thread_objects-Threaded (objects_in (class_size i)) (aligned sp (class_size i)) (class_size i)
        0 0 (clear_page sp s).next (omega (arith, pow_pos i))
        (omega (arith, aligned_above sp (class_size i) (omega (arith, pow_pos i)))) object
        (record { objects = []; chain = refl; all = tt; distinct = tt; size = refl }) tt

  outside : (x : ℕ) → page_of x ≢ sp → (with_page i sp s).next x ≡ s.next x
  outside x ne = rw memory (
      thread_objects-frame (objects_in (class_size i)) (aligned sp (class_size i)) (class_size i) 0
        0 (clear_page sp s).next x
        (λ j l h e. ne (ap page_of e ∙ page_of-object i sp small whole (object j l h)))
      ∙ cleared sp x s whole ne)

  -- The page has all its objects free, and nothing else has changed.
  pub with_page-IsAdded : IsAdded i sp threaded.objects s (with_page i sp s)
  unfolding slab_page_init clear_page
  with_page-IsAdded = record {
    whole = whole;
    nonzero = pos;
    front = rw header refl;
    idx = rw header refl;
    used = rw header refl;
    chain = rw (header, memory) threaded.chain;
    objects = threaded.all;
    distinct = threaded.distinct;
    all = omega (arith, threaded.size);
    others = others;
    memory = outside;
    first = ap (λ (c : Cache). c.pages) (put_here i _ s.caches);
    size = ap (λ (c : Cache). c.obj_size) (put_here i _ s.caches);
    classes = λ j ne. put_there i j _ s.caches ne;
  }

  pub with_page-pmm : (with_page i sp s).pmm ≡ s.pmm
  unfolding slab_page_init clear_page
  with_page-pmm = refl

  -- Below 4096 bytes the page has an object.
  pub with_page-free : i < 9 → ((with_page i sp s).slabs sp).free_list ≢ 0
  with_page-free low =
      let some_object = objects_in-pos i low in
      rw header
        (Chain-nonzero list.1 list.0 threaded.objects (omega (arith, threaded.size)) threaded.chain)
