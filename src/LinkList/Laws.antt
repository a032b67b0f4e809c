-- ===== src/LinkList/Laws.antt =====
-- What each operation of libs/list.h does to a ring.
use lab.Base.{
  ◌≢◌, ◌∙◌, All, All-left, All-right, All-last, All-append, ℕ, ◌≡◌, Bool, true, false, List, [],
  ◌∷◌, ◌++◌, last, first, NotIn, Distinct-insert, Distinct-remove, arith,
}
use lab.LinkList.{
  unlink_between, Store, set_next, set_prev, link_between, list_init, list_add, list_add_before,
  list_del, list_empty,
}
use lab.LinkList.Links.{Links}
use lab.LinkList.Gap.{Links-unlink_between, Links-link_between}
use lab.LinkList.Ring.{Ring, rest_lem, Distinct-Gap, NotIn-Fresh, Ring-cut, Ring-join}

-- The new entry stands between the two that it was linked to.
pub link_between-Ring :
    (l : Store) (x h : ℕ) (pre post : List ℕ)
    → NotIn x (h ∷ pre ++ post)
    → Ring l h (pre ++ post)
    → Ring (link_between x (last h pre) (first post h) l) h (pre ++ x ∷ post)
link_between-Ring l x h pre post n v =
    let (a, e, b) = Ring-cut pre post v in
    Ring-join l' h pre (x ∷ post) (Distinct-insert (h ∷ pre) post x n v.distinct) (
      rw (rest_lem post h) (
        Links-link_between l (Distinct-Gap h pre post v.distinct) x (NotIn-Fresh x h pre post n) a
          b))
  where
    l' : Store
    l' = link_between x (last h pre) (first post h) l

-- On a ring that does not have the new entry, `list_add` puts it behind the given one, which may be
-- the head.
pub list_add-Ring :
    (l : Store) (x h : ℕ) (pre post : List ℕ)
    → NotIn x (h ∷ pre ++ post)
    → Ring l h (pre ++ post)
    → Ring (list_add (last h pre) x l) h (pre ++ x ∷ post)
unfolding list_add
list_add-Ring l x h pre post n v =
    let (a, e, b) = Ring-cut pre post v in rw e.0 (link_between-Ring l x h pre post n v)

-- On a ring that does not have the new entry, `list_add_before` puts it in front of the given one,
-- which may be the head.
pub list_add_before-Ring :
    (l : Store) (x h : ℕ) (pre post : List ℕ)
    → NotIn x (h ∷ pre ++ post)
    → Ring l h (pre ++ post)
    → Ring (list_add_before (first post h) x l) h (pre ++ x ∷ post)
unfolding list_add_before
list_add_before-Ring l x h pre post n v =
    let (a, e, b) = Ring-cut pre post v in rw e.1 (link_between-Ring l x h pre post n v)

-- `list_del` takes the given entry out of its ring and leaves the others in their order.
pub list_del-Ring :
    (l : Store) (x h : ℕ) (pre post : List ℕ)
    → Ring l h (pre ++ x ∷ post)
    → Ring (list_del x l) h (pre ++ post)
unfolding list_del
list_del-Ring l x h pre post v =
    let (a, e, b) = Ring-cut pre (x ∷ post) v in
    let (n, d) = Distinct-remove (h ∷ pre) post x v.distinct in
    let b' = rw (rest_lem post h) at b in
    rw (e.1, b'.0.0)
      (Ring-join _ h pre post d (Links-unlink_between l (Distinct-Gap h pre post d) a b'.1))

abbrev pub is_nil : List ℕ → Bool
is_nil [] = true
is_nil (x ∷ xs) = false

-- `list_empty` holds of a head with no entry behind it, and of no other.
pub list_empty-Ring : (l : Store) (h : ℕ) (xs : List ℕ) → Ring l h xs → list_empty h l ≡ is_nil xs
unfolding list_empty
list_empty-Ring l h [] v = ground arith
list_empty-Ring l h (x ∷ xs) v = ground arith

-- `list_init` makes an entry the head of an empty ring.
pub list_init-Ring : (l : Store) (h : ℕ) → Ring (list_init h l) h []
unfolding list_init set_next set_prev
list_init-Ring l h = record { distinct = (tt, tt); links = ((ground arith, ground arith), tt) }

-- A store that agrees on the head and the entries holds the same ring.
pub Ring-frame :
    (T : ℕ → Type 0) {l l' : Store} (h : ℕ) (xs : List ℕ)
    → ((x : ℕ) → T x → l' x ≡ l x)
    → T h
    → All T xs
    → Ring l h xs
    → Ring l' h xs
Ring-frame T {l} {l'} h xs same th txs r = record {
  distinct = r.distinct;
  links = Links-frame h (xs ++ h ∷ []) th (All-append T xs (h ∷ []) txs (th, tt)) r.links;
}
  where
    Links-frame : (a : ℕ) (ys : List ℕ) → T a → All T ys → Links l a ys → Links l' a ys
    Links-frame a [] ta t k = tt
    Links-frame a (y ∷ ys) ta t k =
        ((rw (same a ta) k.0.0, rw (same y t.0) k.0.1), Links-frame y ys t.0 t.1 k.1)

-- `list_add` behind a head writes to the new entry, the head and the entry that was first.
pub list_add-outside :
    (l : Store) (h p : ℕ) (xs : List ℕ) (x : ℕ)
    → Ring l h xs
    → NotIn x (p ∷ h ∷ xs)
    → list_add h p l x ≡ l x
unfolding list_add link_between set_next set_prev
list_add-outside l h p [] x r n =
    let (_, e, _) = Ring-cut [] [] r in ground (arith, e.0, n.0, n.1.0)
list_add-outside l h p (y ∷ ys) x r n =
    let (_, e, _) = Ring-cut [] (y ∷ ys) r in ground (arith, e.0, n.0, n.1.0, n.1.1.0)

-- `list_del` writes to the two neighbours of the entry.
pub list_del-outside :
    (l : Store) (h p : ℕ) (pre post : List ℕ) (x : ℕ)
    → Ring l h (pre ++ p ∷ post)
    → NotIn x (h ∷ pre ++ p ∷ post)
    → list_del p l x ≡ l x
unfolding list_del unlink_between set_next set_prev
list_del-outside l h p pre post x r n =
    let (_, e, k) = Ring-cut pre (p ∷ post) r in
    let ne_prev : x ≢ last h pre =
      All-last (λ y. x ≢ y) h pre n.0 (All-left _ pre (p ∷ post) n.1) in
    let ne_next : x ≢ (l p).next = behind post (All-right _ pre (p ∷ post) n.1).1 k in
    ground (arith, e.1)
  where
    behind : (ys : List ℕ) → NotIn x ys → Links l p (ys ++ h ∷ []) → x ≢ (l p).next
    behind [] m k = λ q. n.0 (q ∙ k.0.0)
    behind (y ∷ ys) m k = λ q. m.0 (q ∙ k.0.0)
