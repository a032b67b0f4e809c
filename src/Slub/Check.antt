-- ===== src/Slub/Check.antt =====
-- `slub_check` of kern/mm/slub.c without its messages: k bounds the walks over the slabs. A test writes
-- the first bytes of an object, which are the word that leads on in the free list when it is free.
use lab.Base.{
  ℕ, zero, suc, ◌+◌, ◌-◌, ◌*◌, ◌/◌, ◌%◌, ◌^◌, ◌==◌, leb, not, ◌&&◌, ◌||◌, if◌then◌else◌, u32, List,
  [], ◌∷◌, Run,
}
use lab.Base.Program.{Program, ◌>>=◌, ◌>>◌, pure, gets, modify, require}
use lab.Slub.{State, put, ncache, kmalloc, kfree}

-- `*(unsigned int *)p = v`, the low half of a word.
unfoldable pub store_int : {P : Type 0} → ℕ → ℕ → State P → State P
store_int p v s = record s { next = put p (s.next p / 2 ^ 32 * 2 ^ 32 + u32 v) s.next }

unfoldable pub load_int : {P : Type 0} → ℕ → State P → ℕ
load_int p s = s.next p % 2 ^ 32

-- `*(size_t *)p = v`
unfoldable pub store_size : {P : Type 0} → ℕ → ℕ → State P → State P
store_size p v s = record s { next = put p v s.next }

unfoldable pub load_size : {P : Type 0} → ℕ → State P → ℕ
load_size p s = s.next p

-- A store through the null pointer traps.
abbrev pub write_int : {P : Type 0} → ℕ → ℕ → Program (State P) (Unit {0})
write_int p v = require (not (p == 0)) >> modify (store_int p v)

-- `kfree(p)`
abbrev pub give : {P : Type 0} → ℕ → Program (State P) (Unit {0})
give p = modify (kfree p)

-- Test 1 from class i on, with the last object first: `ptrs[i]`.
unfoldable pub free_classes : {P : Type 0} → ℕ → List ℕ → Program (State P) (Unit {0})
free_classes i [] = pure tt
free_classes i (p ∷ ptrs) = do
  v ← gets (load_int p)
  (if p == 0 then pure tt else (require (not (leb 4 (2 ^ (3 + i))) || v == 0xDEADBEEF) >> give p))
  free_classes (i - 1) ptrs

-- Test 2.
unfoldable pub free_objects : {P : Type 0} → ℕ → List ℕ → Program (State P) (Unit {0})
free_objects i [] = pure tt
free_objects i (p ∷ objs) = do
  v ← gets (load_int p)
  require (v == i)
  give p
  free_objects (i + 1) objs

-- Test 5: the objects with their sizes, the last one first.
unfoldable pub free_stress : {P : Type 0} → List (ℕ × ℕ) → Program (State P) (Unit {0})
free_stress [] = pure tt
free_stress ((p, size) ∷ objs) = do
  v ← gets (load_size p)
  (if p == 0 then pure tt else (require (not (leb 8 size) || v == size) >> give p))
  free_stress objs

module _ {P : Type 0} (alloc_pages : ℕ → P → Run (ℕ × P)) (page_base nbase offset k : ℕ) where
  abbrev pub allocate : ℕ → Program (State P) ℕ
  allocate size = kmalloc alloc_pages page_base nbase offset k size

  -- `kmalloc` whose result is asserted not to be NULL.
  abbrev pub allocate_some : ℕ → Program (State P) ℕ
  allocate_some size = do p ← allocate size; require (not (p == 0)); pure p

  -- `for (int i = 0; i < SLUB_NCACHE; i++) …` with n rounds left.
  unfoldable pub alloc_classes : ℕ → ℕ → List ℕ → Program (State P) (List ℕ)
  alloc_classes zero i ptrs = pure ptrs
  alloc_classes (suc n) i ptrs = do
    p ← allocate_some (2 ^ (3 + i))
    (if leb 4 (2 ^ (3 + i)) then write_int p 0xDEADBEEF else pure tt)
    alloc_classes n (i + 1) (p ∷ ptrs)

  unfoldable pub alloc_objects : ℕ → ℕ → Program (State P) (List ℕ)
  alloc_objects zero i = pure []
  alloc_objects (suc n) i = do
    p ← allocate_some 64
    write_int p i
    objs ← alloc_objects n (i + 1)
    pure (p ∷ objs)

  -- Test 3, with n rounds left.
  unfoldable pub alternate : ℕ → Program (State P) (Unit {0})
  alternate zero = pure tt
  alternate (suc n) = do
    p1 ← allocate 16
    p2 ← allocate 32
    p3 ← allocate 64
    require (not (p1 == 0) && not (p2 == 0) && not (p3 == 0))
    give p2
    p4 ← allocate_some 32
    give p1
    give p3
    give p4
    alternate n

  -- Test 4.
  unfoldable pub edge_cases : Program (State P) (Unit {0})
  edge_cases = do
    tiny ← allocate 1
    small ← allocate 8
    boundary ← allocate 4096
    require (not (tiny == 0) && not (small == 0) && not (boundary == 0))
    give tiny
    give small
    give boundary

  unfoldable pub alloc_stress : ℕ → ℕ → List (ℕ × ℕ) → Program (State P) (List (ℕ × ℕ))
  alloc_stress zero seed objs = pure objs
  alloc_stress (suc n) seed objs = do
    let seed' = u32 (seed * 1103515245 + 12345)
    let size = seed' / 2 ^ 16 % 1024 + 1
    p ← allocate size
    (if not (p == 0) && leb 8 size then modify (store_size p size) else pure tt)
    alloc_stress n seed' ((p, size) ∷ objs)

  -- Test 6.
  unfoldable pub isolation : Program (State P) (Unit {0})
  isolation = do
    a16 ← allocate 16
    a32 ← allocate 32
    a64 ← allocate 64
    write_int a16 16
    write_int a32 32
    write_int a64 64
    give a32
    b32 ← allocate_some 32
    v16 ← gets (load_int a16)
    require (v16 == 16)
    v64 ← gets (load_int a64)
    require (v64 == 64)
    give a16
    give b32
    give a64

  unfoldable pub slub_check : Program (State P) (Unit {0})
  slub_check = do
    ptrs ← alloc_classes ncache 0 []
    free_classes (ncache - 1) ptrs
    objs ← alloc_objects 32 0
    free_objects 0 objs
    alternate 16
    edge_cases
    stress ← alloc_stress 256 0x1234 []
    free_stress stress
    isolation
    give 0
    zero_size ← allocate 0
    require (zero_size == 0)
