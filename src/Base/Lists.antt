-- ===== src/Base/Lists.antt =====
-- Lists measured by native numbers, predicates over all members, and lists without repetition.
use Prim.Native.Nat.{ℕ, suc, ◌+◌}
use mathlib.Core.Path.{◌≡◌, sym}
use mathlib.Core.Logic.{◌≢◌}
use mathlib.Core.List.{List, [], ◌∷◌, ◌++◌}
use native.Mathlib.Omega.{arith}

module _ {ℓ} {A : Type ℓ} where
  abbrev pub length : List A → ℕ
  length [] = 0
  length (x ∷ xs) = suc (length xs)

  pub length-append : (xs ys : List A) → length (xs ++ ys) ≡ length xs + length ys
  length-append [] ys = omega arith
  length-append (x ∷ xs) ys = omega (arith, length-append xs ys)

  abbrev pub last : A → List A → A
  last a [] = a
  last a (x ∷ xs) = last x xs

  abbrev pub first : List A → A → A
  first [] b = b
  first (x ∷ xs) b = x

module _ {ℓ κ} {A : Type ℓ} (P : A → Type κ) where
  abbrev pub All : List A → Type κ
  All [] = Unit
  All (x ∷ xs) = P x × All xs

  pub All-append : (xs ys : List A) → All xs → All ys → All (xs ++ ys)
  All-append [] ys h k = k
  All-append (x ∷ xs) ys h k = (h.0, All-append xs ys h.1 k)

  pub All-left : (xs ys : List A) → All (xs ++ ys) → All xs
  All-left [] ys h = tt
  All-left (x ∷ xs) ys h = (h.0, All-left xs ys h.1)

  pub All-right : (xs ys : List A) → All (xs ++ ys) → All ys
  All-right [] ys h = h
  All-right (x ∷ xs) ys h = All-right xs ys h.1

  pub All-mid : (xs ys : List A) {x : A} → All (xs ++ x ∷ ys) → P x
  All-mid [] ys h = h.0
  All-mid (x ∷ xs) ys h = All-mid xs ys h.1

  pub All-last : (a : A) (xs : List A) → P a → All xs → P (last a xs)
  All-last a [] p h = p
  All-last a (x ∷ xs) p h = All-last x xs h.0 h.1

pub All-map {ℓ κ ν} :
    {A : Type ℓ} (P : A → Type κ) (Q : A → Type ν) (xs : List A)
    → ((x : A) → P x → Q x)
    → All P xs
    → All Q xs
All-map P Q [] f h = tt
All-map P Q (x ∷ xs) f h = (f x h.0, All-map P Q xs f h.1)

-- No member of the list is `a`.
abbrev pub NotIn : ℕ → List ℕ → Type 0
NotIn a = All (λ x. a ≢ x)

abbrev pub Distinct : List ℕ → Type 0
Distinct [] = Unit
Distinct (x ∷ xs) = NotIn x xs × Distinct xs

pub Distinct-left : (xs ys : List ℕ) → Distinct (xs ++ ys) → Distinct xs
Distinct-left [] ys d = tt
Distinct-left (x ∷ xs) ys d = (All-left _ xs ys d.0, Distinct-left xs ys d.1)

pub Distinct-right : (xs ys : List ℕ) → Distinct (xs ++ ys) → Distinct ys
Distinct-right [] ys d = d
Distinct-right (x ∷ xs) ys d = Distinct-right xs ys d.1

-- Every member of the first part differs from every member of the second.
pub Distinct-cross : (xs ys : List ℕ) → Distinct (xs ++ ys) → All (λ x. NotIn x ys) xs
Distinct-cross [] ys d = tt
Distinct-cross (x ∷ xs) ys d = (All-right _ xs ys d.0, Distinct-cross xs ys d.1)

pub All-insert {ℓ κ} :
    {A : Type ℓ} (P : A → Type κ) (xs ys : List A) (x : A)
    → P x
    → All P (xs ++ ys)
    → All P (xs ++ x ∷ ys)
All-insert P [] ys x p h = (p, h)
All-insert P (z ∷ xs) ys x p h = (h.0, All-insert P xs ys x p h.1)

pub All-remove {ℓ κ} :
    {A : Type ℓ} (P : A → Type κ) (xs ys : List A) (x : A) → All P (xs ++ x ∷ ys) → All P (xs ++ ys)
All-remove P [] ys x h = h.1
All-remove P (z ∷ xs) ys x h = (h.0, All-remove P xs ys x h.1)

pub Distinct-insert :
    (xs ys : List ℕ) (x : ℕ) → NotIn x (xs ++ ys) → Distinct (xs ++ ys) → Distinct (xs ++ x ∷ ys)
Distinct-insert [] ys x n d = (n, d)
Distinct-insert (z ∷ xs) ys x n d =
    (All-insert _ xs ys x (λ e. n.0 (sym e)) d.0, Distinct-insert xs ys x n.1 d.1)

pub Distinct-remove :
    (xs ys : List ℕ) (x : ℕ) → Distinct (xs ++ x ∷ ys) → NotIn x (xs ++ ys) × Distinct (xs ++ ys)
Distinct-remove [] ys x d = d
Distinct-remove (z ∷ xs) ys x d =
    let (n, k) = Distinct-remove xs ys x d.1 in
    (((λ e. All-mid _ xs ys d.0 (sym e)), n), (All-remove _ xs ys x d.0, k))

pub All-every {ℓ κ} : {A : Type ℓ} (P : A → Type κ) (xs : List A) → ((x : A) → P x) → All P xs
All-every P [] h = tt
All-every P (x ∷ xs) h = (h x, All-every P xs h)

pub All-both {ℓ κ ν} :
    {A : Type ℓ} (P : A → Type κ) (Q : A → Type ν) (xs : List A)
    → All P xs
    → All Q xs
    → All (λ x. P x × Q x) xs
All-both P Q [] p q = tt
All-both P Q (x ∷ xs) p q = ((p.0, q.0), All-both P Q xs p.1 q.1)

pub All-swap {ℓ κ ν} :
    {A : Type ℓ} {B : Type κ} (R : A → B → Type ν) (xs : List A) (ys : List B)
    → All (λ x. All (R x) ys) xs
    → All (λ y. All (λ x. R x y) xs) ys
All-swap R [] ys h = All-every (λ y. Unit) ys (λ y. tt)
All-swap R (x ∷ xs) ys h = All-both (R x) (λ y. All (λ z. R z y) xs) ys h.0 (All-swap R xs ys h.1)
