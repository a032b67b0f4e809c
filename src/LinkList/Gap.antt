-- ===== src/LinkList/Gap.antt =====
-- A chain cut in two between an entry `last h pre` and an entry `f`: joining the halves again, with
-- or without a new entry between them.
use lab.Base.{ℕ, ◌≢◌, List, ◌∷◌, ◌++◌, last, NotIn, arith}
use lab.LinkList.{Store, set_next, set_prev, link_between, unlink_between}
use lab.LinkList.Links.{Edge, Links, NotSource, Links-append, Links-set_next, Links-set_prev}

-- The two halves share no pointer with the gap between them.
pub record Gap (h : ℕ) (pre : List ℕ) (f : ℕ) (r : List ℕ) : Type 0 where
  pub source : NotSource (last h pre) h pre
  pub target : NotIn f pre
  pub source_after : NotSource (last h pre) f r
  pub target_after : NotIn f r

-- The entry stands in neither half.
pub record Fresh (x h : ℕ) (pre : List ℕ) (f : ℕ) (r : List ℕ) : Type 0 where
  pub source : NotSource x h pre
  pub target : NotIn x pre
  pub source_after : NotSource x f r
  pub target_after : NotIn x (f ∷ r)
  pub ne_last : x ≢ last h pre

module _ (l : Store) {h f : ℕ} {pre r : List ℕ} (g : Gap h pre f r) where
  pub Links-unlink_between :
      Links l h pre → Links l f r → Links (unlink_between (last h pre) f l) h (pre ++ f ∷ r)
  Links-unlink_between a b =
      Links-append (unlink_between u f l) h f pre r (keep h pre g.source g.target a) joined
        (keep f r g.source_after g.target_after b)
    where
      u : ℕ
      u = last h pre

      keep :
          (c : ℕ) (zs : List ℕ)
          → NotSource u c zs
          → NotIn f zs
          → Links l c zs
          → Links (unlink_between u f l) c zs
      keep c zs ns ni k =
          unfold unlink_between in
          Links-set_prev (set_next u f l) f u c zs ni (Links-set_next l u f c zs ns k)

      joined : Edge (unlink_between u f l) u f
      joined = unfold unlink_between set_next set_prev in (ground arith, ground arith)

  pub Links-link_between :
      (x : ℕ)
      → Fresh x h pre f r
      → Links l h pre
      → Links l f r
      → Links (link_between x (last h pre) f l) h (pre ++ x ∷ f ∷ r)
  Links-link_between x new a b =
      Links-append l' h x pre (f ∷ r) (keep h pre g.source g.target new.source new.target a) into
        (outof, keep f r g.source_after g.target_after new.source_after new.target_after.1 b)
    where
      u : ℕ
      u = last h pre

      l' : Store
      l' = link_between x u f l

      keep :
          (c : ℕ) (zs : List ℕ)
          → NotSource u c zs
          → NotIn f zs
          → NotSource x c zs
          → NotIn x zs
          → Links l c zs
          → Links l' c zs
      keep c zs ns ni ns' ni' k =
          unfold link_between in
          Links-set_prev _ x u c zs ni' (
            Links-set_next _ x f c zs ns'
              (Links-set_next _ u x c zs ns (Links-set_prev l f x c zs ni k)))

      into : Edge l' u x
      into =
          unfold link_between set_next set_prev in
          (ground (arith, new.ne_last), ground (arith, new.ne_last))

      outof : Edge l' x f
      outof =
          unfold link_between set_next set_prev in
          (ground (arith, new.ne_last), ground (arith, new.target_after.0))
