-- ===== src/LinkList/Links.antt =====
-- Chains of entries whose two pointers agree, and how single pointer writes affect them.
use lab.Base.{ℕ, ◌≡◌, ◌≢◌, sym, ◌∙◌, List, [], ◌∷◌, ◌++◌, last, All-last, NotIn, Distinct, arith}
use lab.LinkList.{Store, set_next, set_prev}

abbrev pub Edge : Store → ℕ → ℕ → Type 0
Edge l a b = ((l a).next ≡ b) × ((l b).prev ≡ a)

-- From `a` the entries `xs` follow one another, by `next` forwards and by `prev` backwards.
abbrev pub Links : Store → ℕ → List ℕ → Type 0
Links l a [] = Unit
Links l a (x ∷ xs) = Edge l a x × Links l x xs

-- `u` is not an entry that a `next` of the chain leaves from.
abbrev pub NotSource : ℕ → ℕ → List ℕ → Type 0
NotSource u a [] = Unit
NotSource u a (x ∷ xs) = (u ≢ a) × NotSource u x xs

pub Links-append :
    (l : Store) (a x : ℕ) (xs ys : List ℕ)
    → Links l a xs
    → Edge l (last a xs) x
    → Links l x ys
    → Links l a (xs ++ x ∷ ys)
Links-append l a x [] ys h e k = (e, k)
Links-append l a x (z ∷ xs) ys h e k = (h.0, Links-append l z x xs ys h.1 e k)

pub Links-left : (l : Store) (a : ℕ) (xs ys : List ℕ) → Links l a (xs ++ ys) → Links l a xs
Links-left l a [] ys h = tt
Links-left l a (z ∷ xs) ys h = (h.0, Links-left l z xs ys h.1)

pub Links-right :
    (l : Store) (a : ℕ) (xs ys : List ℕ) → Links l a (xs ++ ys) → Links l (last a xs) ys
Links-right l a [] ys h = h
Links-right l a (z ∷ xs) ys h = Links-right l z xs ys h.1

-- A write that the chain does not read leaves it a chain.
pub Links-set_next :
    (l : Store) (u v a : ℕ) (xs : List ℕ)
    → NotSource u a xs
    → Links l a xs
    → Links (set_next u v l) a xs
unfolding set_next
Links-set_next l u v a [] n h = tt
Links-set_next l u v a (x ∷ xs) n h =
    ((ground arith, ground arith), Links-set_next l u v x xs n.1 h.1)

pub Links-set_prev :
    (l : Store) (u v a : ℕ) (xs : List ℕ) → NotIn u xs → Links l a xs → Links (set_prev u v l) a xs
unfolding set_prev
Links-set_prev l u v a [] n h = tt
Links-set_prev l u v a (x ∷ xs) n h =
    ((ground arith, ground arith), Links-set_prev l u v x xs n.1 h.1)

-- Only the last entry of a chain without repetition is no source.
pub NotSource-last : (a : ℕ) (xs : List ℕ) → Distinct (a ∷ xs) → NotSource (last a xs) a xs
NotSource-last a [] d = tt
NotSource-last a (x ∷ xs) d =
    (λ e. All-last (λ y. a ≢ y) x xs d.0.0 d.0.1 (sym e), NotSource-last x xs d.1)

pub NotSource-snoc : (u a b : ℕ) (xs : List ℕ) → u ≢ a → NotIn u xs → NotSource u a (xs ++ b ∷ [])
NotSource-snoc u a b [] n h = (n, tt)
NotSource-snoc u a b (x ∷ xs) n h = (n, NotSource-snoc u x b xs h.0 h.1)

-- From `a` the `next` pointers lead through `xs`, whatever the `prev` pointers are.
abbrev pub Forward : Store → ℕ → List ℕ → Type 0
Forward l a [] = Unit
Forward l a (x ∷ xs) = ((l a).next ≡ x) × Forward l x xs

pub Links-Forward : (l : Store) (a : ℕ) (xs : List ℕ) → Links l a xs → Forward l a xs
Links-Forward l a [] h = tt
Links-Forward l a (x ∷ xs) h = (h.0.0, Links-Forward l x xs h.1)

pub Forward-append :
    (l : Store) (a x : ℕ) (xs ys : List ℕ)
    → Forward l a xs
    → (l (last a xs)).next ≡ x
    → Forward l x ys
    → Forward l a (xs ++ x ∷ ys)
Forward-append l a x [] ys h e k = (e, k)
Forward-append l a x (z ∷ xs) ys h e k = (h.0, Forward-append l z x xs ys h.1 e k)

-- Writes to `next` at entries that are no sources of the chain.
pub Forward-frame :
    (l l' : Store) (u w a : ℕ) (xs : List ℕ)
    → ((x : ℕ) → x ≢ u → x ≢ w → (l' x).next ≡ (l x).next)
    → NotSource u a xs
    → NotSource w a xs
    → Forward l a xs
    → Forward l' a xs
Forward-frame l l' u w a [] e n m h = tt
Forward-frame l l' u w a (x ∷ xs) e n m h =
    (e a (λ p. n.0 (sym p)) (λ p. m.0 (sym p)) ∙ h.0, Forward-frame l l' u w x xs e n.1 m.1 h.1)

pub Forward-same :
    (l l' : Store) (a : ℕ) (xs : List ℕ)
    → ((x : ℕ) → (l' x).next ≡ (l x).next)
    → Forward l a xs
    → Forward l' a xs
Forward-same l l' a [] e h = tt
Forward-same l l' a (x ∷ xs) e h = (e a ∙ h.0, Forward-same l l' x xs e h.1)
