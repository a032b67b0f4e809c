-- ===== src/FreeArea/Release.antt =====
-- The loops of `init_memmap` and `free_pages` over the pages of a block.
use lab.Base.{ℕ, zero, suc, ◌+◌, ◌≤◌, ◌<◌, ◌≡◌, refl, inl, inr, true, false, ◌∙◌, Run, done, arith}
use native.Mathlib.Decide.{dec_lt}
use lab.FreeArea.{Page, put, clear_pages, release_pages}
use lab.FreeArea.Holds.{Allocated, Same}

-- Every page of the range is reserved, as `page_init` leaves it.
abbrev pub Reserved : (ℕ → Page) → ℕ → ℕ → Type 0
Reserved pages base n = (q : ℕ) → base ≤ q → q < base + n → (pages q).reserved ≡ true

-- A loop over the pages ran through, wrote to no other descriptor, and left the pages unmarked.
abbrev pub Ran : ℕ → ℕ → (ℕ → Page) → Run (ℕ → Page) → Type 0
Ran base n pages r =
    (pages' : ℕ → Page) × (r ≡ done pages')
    × Same base (base + n) pages pages'
    × Allocated pages' base n

pub Ran-suc :
    (base n : ℕ) (v : Page) (pages : ℕ → Page) (r : Run (ℕ → Page))
    → v.reserved ≡ false
    → v.head ≡ false
    → Ran (base + 1) n (put base v pages) r
    → Ran base (suc n) pages r
unfolding put
Ran-suc base n v pages r x y (pages', e, same, al) = (
  pages',
  e,
  (λ q out.
      same q (elim out [ inl h ↦ inl (omega arith) | inr h ↦ inr (omega arith) ])
      ∙ elim out [ inl h ↦ ground arith | inr h ↦ ground arith ]),
  λ q lo hi. elim (dec_lt base q) [
    | yes h ↦ al q (omega arith) (omega arith)
    | no h ↦
        let e' : base ≡ q = omega arith in
        let here = same base (inl (omega arith)) in rw (← e', here) (ground arith)
  ],
)

pub clear_pages-Ran :
    (n base : ℕ) (pages : ℕ → Page)
    → Reserved pages base n
    → Ran base n pages (clear_pages n base pages)
unfolding clear_pages put
clear_pages-Ran zero base pages h = (pages, refl, (λ q out. refl), λ q lo hi. absurd (omega arith))
clear_pages-Ran (suc n) base pages h = rw (h base (omega arith) (omega arith)) (
    Ran-suc base n _ pages _ refl refl
      (clear_pages-Ran n (base + 1) _ λ q lo hi. ground (arith, h q)))

pub release_pages-Ran :
    (n base : ℕ) (pages : ℕ → Page)
    → Allocated pages base n
    → Ran base n pages (release_pages n base pages)
unfolding release_pages put
release_pages-Ran zero base pages h =
    (pages, refl, (λ q out. refl), λ q lo hi. absurd (omega arith))
release_pages-Ran (suc n) base pages h =
    let (a, b) = h base (omega arith) (omega arith) in
    rw (a, b)
      (Ran-suc base n _ pages _ refl refl
        (release_pages-Ran n (base + 1) _ λ q lo hi. ground (arith, h q)))
