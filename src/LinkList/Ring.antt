-- ===== src/LinkList/Ring.antt =====
-- The operations of libs/list.h on a list head and the entries behind it.
use lab.Base.{
  ℕ, ◌≡◌, ◌≢◌, refl, sym, List, [], ◌∷◌, ◌++◌, append_assoc, last, first, All, All-left, All-right,
  All-mid, All-append, All-last, NotIn, Distinct, Distinct-left, Distinct-right, Distinct-cross,
}
use lab.LinkList.{Store}
use lab.LinkList.Links.{
  Edge, Links, NotSource, Links-left, Links-right, NotSource-last, NotSource-snoc,
}
use lab.LinkList.Gap.{Gap, Fresh}

-- From the head `h` the `next` pointers lead through the distinct entries `xs` and back to `h`, and
-- the `prev` pointers lead the other way.
pub record Ring (l : Store) (h : ℕ) (xs : List ℕ) : Type 0 where
  pub distinct : Distinct (h ∷ xs)
  pub links : Links l h (xs ++ h ∷ [])

-- What follows the first entry, the head at the end included.
abbrev pub rest : List ℕ → ℕ → List ℕ
rest [] h = []
rest (y ∷ ys) h = ys ++ h ∷ []

pub rest_lem : (ys : List ℕ) (h : ℕ) → ys ++ h ∷ [] ≡ first ys h ∷ rest ys h
rest_lem [] h = refl
rest_lem (y ∷ ys) h = refl

pub Distinct-Gap :
    (h : ℕ) (pre post : List ℕ)
    → Distinct (h ∷ pre ++ post)
    → Gap h pre (first post h) (rest post h)
Distinct-Gap h pre [] d = record {
  source = NotSource-last h pre (All-left _ pre [] d.0, Distinct-left pre [] d.1);
  target = All-left _ pre [] d.0;
  source_after = tt;
  target_after = tt;
}
Distinct-Gap h pre (y ∷ ys) d =
    let cross = Distinct-cross (h ∷ pre) (y ∷ ys) d in
    let apart : NotIn (last h pre) (y ∷ ys) = All-last _ h pre cross.0 cross.1 in
    record {
      source = NotSource-last h pre (Distinct-left (h ∷ pre) (y ∷ ys) d);
      target = All-swap y pre ys cross.1;
      source_after = NotSource-snoc (last h pre) y h ys apart.0 apart.1;
      target_after =
          All-append _ ys (h ∷ []) (Distinct-right pre (y ∷ ys) d.1).0
            ((λ e. All-mid _ pre ys d.0 (sym e)), tt);
    }
  where
    All-swap : (z : ℕ) (xs zs : List ℕ) → All (λ x. NotIn x (z ∷ zs)) xs → NotIn z xs
    All-swap z [] zs k = tt
    All-swap z (x ∷ xs) zs k = ((λ e. k.0.0 (sym e)), All-swap z xs zs k.1)

pub NotIn-Fresh :
    (x h : ℕ) (pre post : List ℕ)
    → NotIn x (h ∷ pre ++ post)
    → Fresh x h pre (first post h) (rest post h)
NotIn-Fresh x h pre post n = record {
  source = source_pre h pre n.0 (All-left _ pre post n.1);
  target = All-left _ pre post n.1;
  source_after = source_post post (All-right _ pre post n.1);
  target_after = target_post post (All-right _ pre post n.1);
  ne_last = All-last _ h pre n.0 (All-left _ pre post n.1);
}
  where
    source_pre : (a : ℕ) (ys : List ℕ) → x ≢ a → NotIn x ys → NotSource x a ys
    source_pre a [] p q = tt
    source_pre a (y ∷ ys) p q = (p, source_pre y ys q.0 q.1)

    source_post : (ys : List ℕ) → NotIn x ys → NotSource x (first ys h) (rest ys h)
    source_post [] q = tt
    source_post (y ∷ ys) q = NotSource-snoc x y h ys q.0 q.1

    target_post : (ys : List ℕ) → NotIn x ys → NotIn x (first ys h ∷ rest ys h)
    target_post [] q = (n.0, tt)
    target_post (y ∷ ys) q = (q.0, All-append _ ys (h ∷ []) q.1 (n.0, tt))

-- A ring cut behind `pre`.
pub Ring-cut :
    {l : Store} {h : ℕ} (pre post : List ℕ)
    → Ring l h (pre ++ post)
    → Links l h pre × Edge l (last h pre) (first post h) × Links l (first post h) (rest post h)
Ring-cut {l} {h} pre post v =
    let all : Links l h (pre ++ (post ++ h ∷ [])) = rw append_assoc at (v.links) in
    let tail : Links l (last h pre) (first post h ∷ rest post h) =
      rw (rest_lem post h) at (Links-right l h pre (post ++ h ∷ []) all) in
    (Links-left l h pre (post ++ h ∷ []) all, tail.0, tail.1)

pub Ring-join :
    (l : Store) (h : ℕ) (pre post : List ℕ)
    → Distinct (h ∷ pre ++ post)
    → Links l h (pre ++ first post h ∷ rest post h)
    → Ring l h (pre ++ post)
Ring-join l h pre post d k = record { distinct = d; links = rw (append_assoc, rest_lem post h) k }
