-- ===== src/Slub/Chain.antt =====
-- Singly linked lists of addresses, as the slab allocator keeps them: slabs by the field `next` of their
-- headers, and free objects by their first words.
use lab.Base.{ℕ, ◌≡◌, ◌≢◌, refl, sym, ◌∙◌, ◌<◌, length, List, [], ◌∷◌, All, eq→==, ne→==, arith}
use lab.Slub.{put}

-- From p on the field `next` leads through the addresses `xs` to the null pointer.
abbrev pub Chain : (ℕ → ℕ) → ℕ → List ℕ → Type 0
Chain next p [] = p ≡ 0
Chain next p (x ∷ xs) = (p ≡ x) × (x ≢ 0) × Chain next (next x) xs

pub put_here {ℓ} : {A : Type ℓ} (p : ℕ) (v : A) (f : ℕ → A) → put p v f p ≡ v
unfolding put
put_here p v f = rw (eq→== p p refl) refl

pub put_there {ℓ} : {A : Type ℓ} (p q : ℕ) (v : A) (f : ℕ → A) → q ≢ p → put p v f q ≡ f q
unfolding put
put_there p q v f ne = rw (ne→== q p ne) refl

-- A list is as good in a memory that agrees on its addresses.
pub Chain-frame :
    (next next' : ℕ → ℕ) (p : ℕ) (xs : List ℕ)
    → All (λ x. next' x ≡ next x) xs
    → Chain next p xs
    → Chain next' p xs
Chain-frame next next' p [] same c = c
Chain-frame next next' p (x ∷ xs) same c =
    (c.0, c.1, Chain-frame next next' (next' x) xs same.1 (rw same.0 c.2))

pub Chain-first :
    (next : ℕ → ℕ) (p : ℕ) (xs : List ℕ) → p ≢ 0 → Chain next p xs → (ys : List ℕ) × (xs ≡ p ∷ ys)
Chain-first next p [] ne c = absurd (ne c)
Chain-first next p (x ∷ xs) ne c = (xs, rw c.0 refl)

pub Chain-nonzero : (next : ℕ → ℕ) (p : ℕ) (xs : List ℕ) → 0 < length xs → Chain next p xs → p ≢ 0
Chain-nonzero next p [] some_x c = absurd (omega arith)
Chain-nonzero next p (x ∷ xs) some_x c = λ z. c.1 (sym c.0 ∙ z)
