-- ===== src/FreeArea/Walk.antt =====
-- The loop that looks for the place of a freed block in the list.
use lab.Base.{ℕ, zero, suc, ◌+◌, ◌<◌, ◌≡◌, List, [], ◌∷◌, ◌++◌, length, first, All, done, arith}
use lab.LinkList.{Store, list_add, list_add_before, link_between, set_next, set_prev}
use lab.LinkList.Links.{Links}
use lab.FreeArea.{insert_loop}

-- A page of the list that stands before the freed block.
abbrev pub Before : ℕ → ℕ → Type 0
Before base x = (0 < x) × (x < base)

next-first :
    (l : Store) (a y : ℕ) (zs r : List ℕ) → Links l a (zs ++ y ∷ r) → (l a).next ≡ first zs y
next-first l a y [] r h = h.0.0
next-first l a y (z ∷ zs) r h = h.0.0

first_pos : (base y : ℕ) (zs : List ℕ) → All (Before base) zs → 0 < y → 0 < first zs y
first_pos base y [] h p = p
first_pos base y (z ∷ zs) h p = h.0.0

-- The loop stops at the first page behind the block, and puts the block in front of it.
pub insert_loop-Before :
    (k a base y : ℕ) (pre r : List ℕ) (l : Store)
    → Links l a (pre ++ y ∷ r)
    → All (Before base) pre
    → base < y
    → length pre < k
    → insert_loop k base a l ≡ done (list_add_before y base l)
unfolding insert_loop
insert_loop-Before zero a base y pre r l h b less fuel = absurd (omega arith)
insert_loop-Before (suc k) a base y [] r l h b less fuel = ground (arith, h.0.0)
insert_loop-Before (suc k) a base y (z ∷ zs) r l h b less fuel = ground (
  arith,
  h.0.0,
  next-first l z y zs r h.1,
  first_pos base y zs b.1,
  insert_loop-Before k z base y zs r l h.1 b.1 less (omega arith),
)

-- The last three rounds, when every page of the list stands before the block: the block is put
-- behind the last page `z`, and then, since nothing leaves the loop, behind itself.
insert_loop-last :
    (k a base z : ℕ) (l : Store)
    → Links l a (z ∷ 0 ∷ [])
    → Before base z
    → 2 < k
    → insert_loop k base a l ≡ done (list_add base base (list_add z base l))
unfolding insert_loop list_add link_between set_next set_prev
insert_loop-last zero a base z l h b fuel = absurd (omega arith)
insert_loop-last (suc zero) a base z l h b fuel = absurd (omega arith)
insert_loop-last (suc (suc zero)) a base z l h b fuel = absurd (omega arith)
insert_loop-last (suc (suc (suc k))) a base z l h b fuel = ground (arith, h.0.0, h.1.0.0)

pub insert_loop-end :
    (k a base z : ℕ) (pre : List ℕ) (l : Store)
    → Links l a (pre ++ z ∷ 0 ∷ [])
    → All (Before base) pre
    → Before base z
    → length pre + 2 < k
    → insert_loop k base a l ≡ done (list_add base base (list_add z base l))
unfolding insert_loop
insert_loop-end zero a base z pre l h b last_before fuel = absurd (omega arith)
insert_loop-end (suc k) a base z [] l h b last_before fuel =
    insert_loop-last (suc k) a base z l h last_before (omega arith)
insert_loop-end (suc k) a base z (y ∷ ys) l h b last_before fuel = ground (
  arith,
  h.0.0,
  next-first l y z ys (0 ∷ []) h.1,
  first_pos base z ys b.1,
  insert_loop-end k y base z ys l h.1 b.1 last_before (omega arith),
)
