-- ===== src/Buddy/Stress.antt =====
-- What the random tests of kern/mm/buddy_pmm.c do to the free lists.
mod Tests
use mathlib.Core.Path.{subst}
use mathlib.Core.List.{append-nil}
use lab.Base.{
  ℕ, zero, suc, ◌+◌, ◌-◌, ◌*◌, ◌/◌, ◌%◌, ◌^◌, ◌≤◌, ◌<◌, ◌≡◌, ◌≢◌, refl, sym, ap, ◌∙◌, inl, inr,
  Bool, true, false, Bool-cases, List, [], ◌∷◌, ◌++◌, ltb, leb, ◌==◌, ne→==, if◌then◌else◌, All,
  Run, done, panicked, out_of_fuel, arith,
}
use lab.Base.Program
use lab.Base.Program.{Program, bind-done, then-done, call-done}
use lab.Buddy.{State, size_to_order, buddy_alloc_pages, buddy_free_pages, buddy_nr_free_pages}
use lab.Buddy.Lists.{
  Lists, weigh, holds_page, free_pages_in, cover, pow_pos, Halves-holds_page, Halves-size,
}
use lab.Buddy.Holds.{Holds}
use lab.Buddy.Order.{IsOrder, size_to_order-IsOrder, IsOrder-unique}
use lab.Buddy.Alloc.{Outcome, empty_request, too_many, no_block, taken, buddy_alloc_pages-Outcome}
use lab.Buddy.Coalesce.{Coalesced, gained, lost}
use lab.Buddy.Free.{buddy_free_pages-Coalesced}
use lab.Buddy.Kept.{
  order_of, order_of-IsOrder, held, held_none, held_some, held_nothing, Request, Kept, drop-Kept,
  front-Kept, alloc-Kept,
}
use lab.Buddy.Release.{free_if-Kept}
use lab.Buddy.Check.{
  free_if, next_seed, random_size, random_allocs, free_all, smoke_allocs, buddy_deterministic_tests,
  buddy_random_tests, buddy_check,
}

random_size-Request : (seed : ℕ) → Request (0, random_size seed)
unfolding random_size
random_size-Request seed = (omega arith, omega arith)

module _ (pages : ℕ) (high : 10 < pages) {start : ℕ → ℕ} {total : ℕ} (small : total ≤ 2 ^ 31)
    (once : (q : ℕ) → start q ≤ 1) (low : (q : ℕ) → 0 < start q → pages ≤ q) where
  random_allocs-Kept :
      (k seed : ℕ) (allocs : List (ℕ × ℕ)) {s : State}
      → Kept start total allocs s
      → (out : List (ℕ × ℕ) × State) × (random_allocs buddy_alloc_pages
            (buddy_free_pages pages)
            buddy_nr_free_pages
            k
            seed
            allocs
            s
          ≡ done out)
        × Kept start total out.0 out.1
  unfolding random_allocs
  random_allocs-Kept zero seed allocs {s} v = ((allocs, s), refl, v)
  random_allocs-Kept (suc k) seed allocs {s} v =
      let n = random_size (next_seed seed) in
      let (out, run1, v1) = alloc-Kept n small (random_size-Request (next_seed seed)) v in
      let (out2, run2, v2) = random_allocs-Kept k (next_seed seed) ((out.0, n) ∷ allocs) v1 in
      (
        out2,
        bind-done (buddy_alloc_pages n)
              (λ p.
                random_allocs buddy_alloc_pages (buddy_free_pages pages) buddy_nr_free_pages k
                  (next_seed seed) ((p, n) ∷ allocs))
              run1
            ∙ run2,
        v2,
      )

  free_all-Kept :
      (allocs : List (ℕ × ℕ)) {s : State}
      → Kept start total allocs s
      → (s' : State) × (free_all buddy_alloc_pages
            (buddy_free_pages pages)
            buddy_nr_free_pages
            allocs
            s
          ≡ done (tt, s'))
        × Kept start total [] s'
  unfolding free_all
  free_all-Kept [] {s} v = (s, refl, v)
  free_all-Kept ((p, n) ∷ allocs) {s} v =
      let (s1, run1, v1) = free_if-Kept pages high small once low p n v in
      let (s2, run2, v2) = free_all-Kept allocs v1 in
      (
        s2,
        bind-done (free_if buddy_alloc_pages (buddy_free_pages pages) buddy_nr_free_pages p n)
              (λ _. free_all buddy_alloc_pages (buddy_free_pages pages) buddy_nr_free_pages allocs)
              run1
            ∙ run2,
        v2,
      )

  random_tests-Kept :
      {s : State}
      → Kept start total [] s
      → (s' : State) × (buddy_random_tests buddy_alloc_pages
            (buddy_free_pages pages)
            buddy_nr_free_pages
            s
          ≡ done (tt, s'))
        × Kept start total [] s'
  unfolding buddy_random_tests
  random_tests-Kept v =
      let (out, run1, v1) = random_allocs-Kept 256 0x12345678 [] v in
      let (s', run2, v2) = free_all-Kept out.0 v1 in
      (
        s',
        bind-done
              (random_allocs buddy_alloc_pages (buddy_free_pages pages) buddy_nr_free_pages 256
                0x12345678 [])
              (free_all buddy_alloc_pages (buddy_free_pages pages) buddy_nr_free_pages) run1
            ∙ run2,
        v2,
      )

  -- The round behind the request for a page.
  abbrev smoke_round : ℕ → ℕ → Program State (List (ℕ × ℕ))
  smoke_round k q t =
      if q == 0
      then Program.pure [] t
      else Program.◌>>=◌
          (smoke_allocs buddy_alloc_pages (buddy_free_pages pages) buddy_nr_free_pages k)
          (λ plist. Program.pure ((q, 1) ∷ plist)) t

  -- One round, with what the others lead to when it gets a page.
  smoke_step :
      (k : ℕ) (allocs : List (ℕ × ℕ)) (s : State) (p : ℕ) (s1 : State)
      → buddy_alloc_pages 1 s ≡ done (p, s1)
      → Kept start total ((p, 1) ∷ allocs) s1
      → (out : List (ℕ × ℕ) × State) × (smoke_allocs buddy_alloc_pages
            (buddy_free_pages pages)
            buddy_nr_free_pages
            k
            s1
          ≡ done out)
        × Kept start total (out.0 ++ (p, 1) ∷ allocs) out.1
      → (out : List (ℕ × ℕ) × State) × (smoke_allocs buddy_alloc_pages
            (buddy_free_pages pages)
            buddy_nr_free_pages
            (suc k)
            s
          ≡ done out)
        × Kept start total (out.0 ++ allocs) out.1
  unfolding smoke_allocs
  smoke_step k allocs s zero s1 run v rest =
      (([], s1), bind-done (buddy_alloc_pages 1) (smoke_round k) run, drop-Kept 1 v)
  smoke_step k allocs s (suc p) s1 run v (out, run', v') = (
    ((suc p, 1) ∷ out.0, out.1),
    bind-done (buddy_alloc_pages 1) (smoke_round k) run
        ∙ rw (ne→== (suc p) 0 (λ z. absurd (omega arith))) (
            bind-done
              (smoke_allocs buddy_alloc_pages (buddy_free_pages pages) buddy_nr_free_pages k)
              (λ plist. Program.pure ((suc p, 1) ∷ plist)) run'),
    front-Kept (suc p, 1) out.0 allocs v',
  )

  smoke_allocs-Kept :
      (k : ℕ) (allocs : List (ℕ × ℕ)) {s : State}
      → Kept start total allocs s
      → (out : List (ℕ × ℕ) × State) × (smoke_allocs buddy_alloc_pages
            (buddy_free_pages pages)
            buddy_nr_free_pages
            k
            s
          ≡ done out)
        × Kept start total (out.0 ++ allocs) out.1
  unfolding smoke_allocs
  smoke_allocs-Kept zero allocs {s} v = (([], s), refl, v)
  smoke_allocs-Kept (suc k) allocs {s} v =
      let ((p, s1), run1, v1) = alloc-Kept 1 small (omega arith, omega arith) v in
      smoke_step k allocs s p s1 run1 v1 (smoke_allocs-Kept k ((p, 1) ∷ allocs) v1)

  abbrev tests : Program State (Unit {0})
  tests = buddy_random_tests buddy_alloc_pages (buddy_free_pages pages) buddy_nr_free_pages

  abbrev smoke_test : Program State (Unit {0})
  smoke_test =
      Program.◌>>=◌
        (smoke_allocs buddy_alloc_pages (buddy_free_pages pages) buddy_nr_free_pages 1024)
        (free_all buddy_alloc_pages (buddy_free_pages pages) buddy_nr_free_pages)

  -- k random tests, and then the last test.
  abbrev rounds : ℕ → Program State (Unit {0})
  rounds zero = smoke_test
  rounds (suc k) = Program.◌>>◌ tests (rounds k)

  rounds-Kept :
      (k : ℕ) {s : State}
      → Kept start total [] s
      → (s' : State) × (rounds k s ≡ done (tt, s')) × Kept start total [] s'
  rounds-Kept zero {s} v =
      let (out, run1, v1) = smoke_allocs-Kept 1024 [] v in
      let (s', run2, v2) =
        free_all-Kept out.0 (subst (λ xs. Kept start total xs out.1) (append-nil out.0) v1) in
      (
        s',
        bind-done (smoke_allocs buddy_alloc_pages (buddy_free_pages pages) buddy_nr_free_pages 1024)
              (free_all buddy_alloc_pages (buddy_free_pages pages) buddy_nr_free_pages) run1
            ∙ run2,
        v2,
      )
  rounds-Kept (suc k) {s} v =
      let (s1, run1, v1) = random_tests-Kept v in
      let (s2, run2, v2) = rounds-Kept k v1 in (s2, then-done tests (rounds k) run1 run2, v2)

-- When the deterministic tests of `buddy_check` pass and leave the free lists in order, with at most
-- 2 ^ 31 free pages and none of them before page 0, whose descriptor stands above the list heads, all
-- that follows ends without a failed assertion: the random tests and the last test leave the free lists
-- in order, no page becomes free that was not, and the number of free pages does not rise.
pub buddy_check-Holds :
    (pages : ℕ) (s0 : State) {s : State} {fl : Lists}
    → 10 < pages
    → buddy_deterministic_tests buddy_alloc_pages (buddy_free_pages pages) buddy_nr_free_pages s0
      ≡ done (tt, s)
    → Holds s fl
    → free_pages_in fl ≤ 2 ^ 31
    → ((q : ℕ) → 0 < cover fl q → pages ≤ q)
    → (s' : State) × (fl' : Lists) × (buddy_check buddy_alloc_pages
          (buddy_free_pages pages)
          buddy_nr_free_pages
          s0
        ≡ done (tt, s'))
      × Holds s' fl'
      × ((q : ℕ) → cover fl' q ≤ cover fl q)
      × (free_pages_in fl' ≤ free_pages_in fl)
unfolding buddy_check
buddy_check-Holds pages s0 {s} {fl} high before v small low =
    let k : Kept (cover fl) (free_pages_in fl) [] s = record {
      lists = fl;
      holds = v;
      covers = λ q. omega (arith, held_nothing (holds_page q));
      count = omega (arith, held_nothing (λ o p. 2 ^ o));
      requests = tt;
    } in
    let (s', run, k') = rounds-Kept pages high small v.disjoint low 4 k in
    (
      s',
      k'.lists,
      then-done
          (buddy_deterministic_tests buddy_alloc_pages (buddy_free_pages pages) buddy_nr_free_pages)
          (rounds pages high small v.disjoint low 4) before run,
      k'.holds,
      (λ q. omega (arith, k'.covers q)),
      omega (arith, k'.count),
    )
