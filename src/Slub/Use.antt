-- ===== src/Slub/Use.antt =====
-- The slab allocator in use: objects are asked for, written and given back in any order.
use lab.Base.{ℕ, ◌+◌, ◌≤◌, ◌<◌, ◌≡◌, ◌≢◌, ◌⊎◌, List, [], ◌∷◌, ◌++◌, All, Run, done}
use lab.Slub.{State, slub_init, kmalloc, kfree}
use lab.Slub.Apart.{Apart}

-- An area that was asked for and not given back.
pub record Area : Type 0 where
  pub ptr : ℕ
  pub size : ℕ

abbrev pub ptrs : List Area → List ℕ
ptrs [] = []
ptrs (a ∷ areas) = a.ptr ∷ ptrs areas

-- No two areas overlap.
abbrev pub Separate : List Area → Type 0
Separate [] = Unit
Separate (a ∷ areas) = All (λ b. Apart a.ptr a.size b.ptr b.size) areas × Separate areas

-- An address outside of an area.
abbrev pub Outside : ℕ → Area → Type 0
Outside x a = (x < a.ptr) ⊎ (a.ptr + a.size ≤ x)

module _ {P : Type 0} (alloc_pages : ℕ → P → Run (ℕ × P)) (page_base nbase offset : ℕ) where
  -- One use: `kmalloc` of up to 2048 bytes gives an area or the null pointer, an area is given back, or
  -- the areas are written.
  pub data Step (s : State P) (areas : List Area) : State P → List Area → Type 0 where
    allocate :
        (k size ptr : ℕ) {s' : State P}
        → 0 < size
        → size ≤ 2048
        → kmalloc alloc_pages page_base nbase offset k size s ≡ done (ptr, s')
        → ptr ≢ 0
        → Step s areas s' (record { ptr = ptr; size = size } ∷ areas)
    refuse :
        (k size : ℕ) {s' : State P}
        → 0 < size
        → size ≤ 2048
        → kmalloc alloc_pages page_base nbase offset k size s ≡ done (0, s')
        → Step s areas s' areas
    release :
        (pre post : List Area) (a : Area)
        → areas ≡ pre ++ a ∷ post
        → Step s areas (kfree a.ptr s) (pre ++ post)
    write :
        (next' : ℕ → ℕ)
        → ((x : ℕ) → All (Outside x) areas → next' x ≡ s.next x)
        → Step s areas (record s { next = next' }) areas

  -- Any number of uses after `slub_init`.
  pub data Reach (s0 : State P) : State P → List Area → Type 0 where
    start : Reach s0 (slub_init s0) []
    later :
        {s s' : State P} {areas areas' : List Area}
        → Reach s0 s areas
        → Step s areas s' areas'
        → Reach s0 s' areas'
