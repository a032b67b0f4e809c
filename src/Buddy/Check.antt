-- ===== src/Buddy/Check.antt =====
-- `buddy_check` of kern/mm/buddy_pmm.c, as programs over the state S of the manager in use: `alloc`,
-- `free` and `nr_free_pages` stand for the functions of kern/mm/pmm.c. The messages and the points that
-- a build for grading counts are left out.
use lab.Base.{
  ℕ, zero, suc, ◌+◌, ◌-◌, ◌*◌, ◌/◌, ◌%◌, ◌^◌, Bool, not, ◌&&◌, leb, ◌==◌, if◌then◌else◌, u32, sub64,
  List, [], ◌∷◌, Run,
}
use lab.Base.Program.{Program, ◌>>=◌, ◌>>◌, pure, gets, call, require}
use lab.Buddy.{max_order}

abbrev not_null : ℕ → Bool
not_null p = not (p == 0)

-- `seed = seed * 1103515245 + 12345`
unfoldable pub next_seed : ℕ → ℕ
next_seed seed = u32 (seed * 1103515245 + 12345)

-- `((seed >> 16) & 0x7fff) % 16 + 1`
unfoldable pub random_size : ℕ → ℕ
random_size seed = seed / 2 ^ 16 % 2 ^ 15 % 16 + 1

module _ {S : Type 0} (alloc : ℕ → Program S ℕ) (free : ℕ → ℕ → S → Run S)
    (nr_free_pages : S → ℕ) where
  -- `assert(nr_free_pages() == n)` and `assert(nr_free_pages() <= n)`.
  unfoldable pub free_is : ℕ → Program S (Unit {0})
  free_is n = do k ← gets nr_free_pages; require (k == n)

  unfoldable pub free_at_most : ℕ → Program S (Unit {0})
  free_at_most n = do k ← gets nr_free_pages; require (leb k n)

  -- `if (p) free_pages(p, n);`
  unfoldable pub free_if : ℕ → ℕ → Program S (Unit {0})
  free_if p n s = if p == 0 then pure tt s else call (free p n) s

  unfoldable pub buddy_deterministic_tests : Program S (Unit {0})
  unfolding free_is free_at_most free_if
  buddy_deterministic_tests = do
    initial_free ← gets nr_free_pages
    a ← alloc 1
    b ← alloc 1
    c ← alloc 1
    require (not_null a && not_null b && not_null c)
    free_is (sub64 initial_free 3)
    call (free b 1)
    call (free a 1)
    call (free c 1)
    free_is initial_free
    a2 ← alloc 2
    b4 ← alloc 4
    require (not_null a2 && not_null b4)
    free_is (sub64 initial_free 6)
    call (free a2 2)
    call (free b4 4)
    free_is initial_free
    a3 ← alloc 3
    require (not_null a3)
    free_at_most (sub64 initial_free 4)
    call (free a3 3)
    d ← alloc (2 ^ (max_order - 1))
    λ s.
        if d == 0
        then pure tt s
        else (do
          free_at_most (sub64 initial_free (2 ^ (max_order - 1)))
          call (free d (2 ^ (max_order - 1))))
            s
    e ← alloc 2
    f ← alloc 2
    g ← alloc 2
    h ← alloc 2
    require (not_null e && not_null f && not_null g && not_null h)
    call (free h 2)
    call (free f 2)
    call (free g 2)
    call (free e 2)
    large ← alloc 8
    free_if large 8

  -- The blocks asked for, the last one first, so that they are freed from the last one on.
  unfoldable pub random_allocs : ℕ → ℕ → List (ℕ × ℕ) → Program S (List (ℕ × ℕ))
  random_allocs zero seed allocs = pure allocs
  random_allocs (suc k) seed allocs = do
    let seed' = next_seed seed
    p ← alloc (random_size seed')
    random_allocs k seed' ((p, random_size seed') ∷ allocs)

  unfoldable pub free_all : List (ℕ × ℕ) → Program S (Unit {0})
  unfolding free_if
  free_all [] = pure tt
  free_all ((p, n) ∷ allocs) = do free_if p n; free_all allocs

  unfoldable pub buddy_random_tests : Program S (Unit {0})
  unfolding random_allocs free_all
  buddy_random_tests = do allocs ← random_allocs 256 0x12345678 []; free_all allocs

  -- The pages of the last test, in the order in which they came: `CAP` rounds at most.
  unfoldable pub smoke_allocs : ℕ → Program S (List (ℕ × ℕ))
  smoke_allocs zero = pure []
  smoke_allocs (suc k) = do
    q ← alloc 1
    λ s. if q == 0 then pure [] s else (do plist ← smoke_allocs k; pure ((q, 1) ∷ plist)) s

  unfoldable pub buddy_check : Program S (Unit {0})
  unfolding buddy_deterministic_tests buddy_random_tests smoke_allocs free_all
  buddy_check = do
    buddy_deterministic_tests
    buddy_random_tests
    buddy_random_tests
    buddy_random_tests
    buddy_random_tests
    plist ← smoke_allocs 1024
    free_all plist
