-- ===== src/FirstFit/Roundtrip.antt =====
-- Allocating pages and giving them back.
use lab.Base.{ℕ, ◌<◌, ◌≡◌, ◌≢◌, refl, ◌∙◌, sym, ◌⊎◌, true, List, ◌∷◌, ◌++◌, done, arith}
use mathlib.Core.Path.{subst}
use lab.LinkList.{list_empty, list_prev}
use lab.FreeArea.{State}
use lab.FreeArea.Blocks.{Block, block, leave, total-append, total-leave}
use lab.FreeArea.Holds.{Holds}
use lab.FreeArea.Outcome.{Outcome, no_block, taken, Taken, Outcome-Taken}
use lab.FreeArea.Free.{BelowLast-of_head, free_pages-Holds}
use lab.FreeArea.Spec.{Separated, free_block-leave, leave-Away}
use lab.FirstFit.{default_alloc_pages, default_free_pages}
use lab.FirstFit.Alloc.{IsFirst, default_alloc_pages-IsFirst}

done-injective : {A : Type 0} {a b : A} → done a ≡ done b → a ≡ b
done-injective e = cc

-- What a successful allocation returns was free, is allocated afterwards, and is no longer counted;
-- no other page changes between free and allocated.
pub default_alloc_pages-Taken :
    {s : State} {bs : List Block} {out : ℕ × State} (n : ℕ)
    → Holds s bs
    → 0 < n
    → default_alloc_pages n s ≡ done out
    → out.0 ≢ 0
    → Taken n s bs out
default_alloc_pages-Taken {s} {bs} n v pos e ne =
    let (out', e', o) = default_alloc_pages-IsFirst n v pos in
    let same = done-injective (sym e' ∙ e) in
    Outcome-Taken v (subst (λ r. Outcome n s bs (IsFirst n) r) same o) ne

free-taken :
    {n : ℕ} {s : State} {bs : List Block} {out : ℕ × State}
    → Holds s bs
    → Separated 0 bs
    → 0 < n
    → Outcome n s bs (IsFirst n) out
    → out.0 ≢ 0
    → (list_empty 0 out.1.links ≡ true) ⊎ (out.0 < list_prev 0 out.1.links)
    → (s' : State) × (default_free_pages out.0 n out.1 ≡ done s') × Holds s' bs
unfolding default_free_pages
free-taken v sep pos (no_block a) ne below = absurd (ne refl)
free-taken {n} {s} {bs} v sep pos (taken pre b post e fits c v' al same) ne below =
    let w : Separated 0 (pre ++ b ∷ post) = rw e at sep in
    let v0 : Holds s (pre ++ b ∷ post) = rw e at v in
    let (s', run, h) =
      free_pages-Holds (block b.base n) v' (omega arith) pos
        (leave-Away 1 n pre b post fits v0.ordered)
        (BelowLast-of_head b.base (pre ++ leave n b post) v' below)
        (omega (
          arith,
          v0.small,
          total-append pre (b ∷ post),
          total-append pre (leave n b post),
          total-leave n b post fits,
        ))
        al in
    (s', run, rw (e, ← free_block-leave 0 n pre b post pos fits w) h)

-- Giving back the pages that an allocation has just returned makes the free list what it was, if no
-- two of its blocks touch and the block returned does not stand behind all that are left.
pub default_free_pages-alloc :
    {s : State} {bs : List Block} {out : ℕ × State} (n : ℕ)
    → Holds s bs
    → Separated 0 bs
    → 0 < n
    → default_alloc_pages n s ≡ done out
    → out.0 ≢ 0
    → (list_empty 0 out.1.links ≡ true) ⊎ (out.0 < list_prev 0 out.1.links)
    → (s' : State) × (default_free_pages out.0 n out.1 ≡ done s') × Holds s' bs
default_free_pages-alloc {s} {bs} n v sep pos e ne below =
    let (out', e', o) = default_alloc_pages-IsFirst n v pos in
    let same = done-injective (sym e' ∙ e) in
    free-taken v sep pos (subst (λ r. Outcome n s bs (IsFirst n) r) same o) ne below
