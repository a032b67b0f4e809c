-- ===== src/Buddy/Kept.antt =====
-- The blocks that the buddy manager has handed out, beside its free lists.
use mathlib.Core.Path.{subst}
use lab.Base.{
  ℕ, ◌+◌, ◌^◌, ◌≤◌, ◌<◌, ◌≡◌, ◌≢◌, refl, sym, List, [], ◌∷◌, ◌++◌, ◌==◌, ne→==, if◌then◌else◌, All,
  Run, done, panicked, out_of_fuel, arith,
}
use lab.Buddy.{State, size_to_order, buddy_alloc_pages}
use lab.Buddy.Lists.{Lists, holds_page, free_pages_in, cover}
use lab.Buddy.Holds.{Holds}
use lab.Buddy.Order.{IsOrder, size_to_order-IsOrder, IsOrder-unique}
use lab.Buddy.Alloc.{Outcome, empty_request, too_many, no_block, taken, buddy_alloc_pages-Outcome}

abbrev order_in : Run ℕ → ℕ
order_in (done o) = o
order_in panicked = 0
order_in out_of_fuel = 0

-- The order of the block for n pages.
pub order_of : ℕ → ℕ
order_of n = order_in (size_to_order n)

pub order_of-IsOrder : (n : ℕ) → n ≤ 2 ^ 31 → IsOrder n (order_of n)
unfolding order_of
order_of-IsOrder n h =
    let (o, e, is) = size_to_order-IsOrder n h in subst (λ r. IsOrder n (order_in r)) (sym e) is

-- `w o p` summed over the blocks that were handed out; a request that got none has the address 0.
unfoldable pub held : (ℕ → ℕ → ℕ) → List (ℕ × ℕ) → ℕ
held w [] = 0
held w ((p, n) ∷ allocs) = (if p == 0 then 0 else w (order_of n) p) + held w allocs

pub held_nothing : (w : ℕ → ℕ → ℕ) → held w [] ≡ 0
unfolding held
held_nothing w = refl

pub held_none :
    (w : ℕ → ℕ → ℕ) (n : ℕ) (allocs : List (ℕ × ℕ)) → held w ((0, n) ∷ allocs) ≡ held w allocs
unfolding held
held_none w n allocs = let e : 0 + held w allocs ≡ held w allocs = omega arith in e

pub held_some :
    (w : ℕ → ℕ → ℕ) (p n : ℕ) (allocs : List (ℕ × ℕ))
    → p ≢ 0
    → held w ((p, n) ∷ allocs) ≡ w (order_of n) p + held w allocs
unfolding held
held_some w p n allocs some = rw (ne→== p 0 some) refl

abbrev pub Request : ℕ × ℕ → Type 0
Request a = (0 < a.1) × (a.1 ≤ 1024)

-- The state stands for free lists whose blocks, together with those handed out, have each page at most
-- as often as `start` says, and no more pages than `total`.
pub record Kept (start : ℕ → ℕ) (total : ℕ) (allocs : List (ℕ × ℕ)) (s : State) : Type 0 where
  pub lists : Lists
  pub holds : Holds s lists
  pub covers : (q : ℕ) → cover lists q + held (holds_page q) allocs ≤ start q
  pub count : free_pages_in lists + held (λ o p. 2 ^ o) allocs ≤ total
  pub requests : All Request allocs

Kept-none :
    {start : ℕ → ℕ} {total : ℕ} {allocs : List (ℕ × ℕ)} {s : State} (n : ℕ)
    → Request (0, n)
    → Kept start total allocs s
    → Kept start total ((0, n) ∷ allocs) s
unfolding held
Kept-none n r k = record {
  lists = k.lists;
  holds = k.holds;
  covers = λ q. omega (arith, k.covers q);
  count = omega (arith, k.count);
  requests = (r, k.requests);
}

-- A request that got no block can be forgotten.
pub drop-Kept :
    {start : ℕ → ℕ} {total : ℕ} {allocs : List (ℕ × ℕ)} {s : State} (n : ℕ)
    → Kept start total ((0, n) ∷ allocs) s
    → Kept start total allocs s
drop-Kept {allocs = allocs} n k = record {
  lists = k.lists;
  holds = k.holds;
  covers = λ q. omega (arith, k.covers q, held_none (holds_page q) n allocs);
  count = omega (arith, k.count, held_none (λ o p. 2 ^ o) n allocs);
  requests = k.requests.1;
}

held-mid :
    (w : ℕ → ℕ → ℕ) (a : ℕ × ℕ) (xs allocs : List (ℕ × ℕ))
    → held w (xs ++ a ∷ allocs) ≡ held w ((a ∷ xs) ++ allocs)
unfolding held
held-mid w a [] allocs = refl
held-mid w a (x ∷ xs) allocs = omega (arith, held-mid w a xs allocs)

requests_front :
    (a : ℕ × ℕ) (xs allocs : List (ℕ × ℕ))
    → All Request (xs ++ a ∷ allocs)
    → All Request ((a ∷ xs) ++ allocs)
requests_front a [] allocs r = r
requests_front a (x ∷ xs) allocs r =
    let rest = requests_front a xs allocs r.1 in (rest.0, (r.0, rest.1))

pub front-Kept :
    {start : ℕ → ℕ} {total : ℕ} {s : State} (a : ℕ × ℕ) (xs allocs : List (ℕ × ℕ))
    → Kept start total (xs ++ a ∷ allocs) s
    → Kept start total ((a ∷ xs) ++ allocs) s
front-Kept a xs allocs k = record {
  lists = k.lists;
  holds = k.holds;
  covers = λ q. omega (arith, k.covers q, held-mid (holds_page q) a xs allocs);
  count = omega (arith, k.count, held-mid (λ o p. 2 ^ o) a xs allocs);
  requests = requests_front a xs allocs k.requests;
}

Outcome-Kept :
    {start : ℕ → ℕ} {total : ℕ} {allocs : List (ℕ × ℕ)} {s : State} (n : ℕ)
    → Request (0, n)
    → (k : Kept start total allocs s) → (out : ℕ × State) → Outcome n s k.lists out
    → Kept start total ((out.0, n) ∷ allocs) out.1
unfolding held
Outcome-Kept n r k _ (empty_request z) = absurd (omega (arith, r.0))
Outcome-Kept n r k _ (too_many h) = Kept-none n r k
Outcome-Kept n r k _ (no_block need is none) = Kept-none n r k
Outcome-Kept n r k _ (taken blk need fl' is above v' covers count) =
    let e = IsOrder-unique n (order_of n) need (order_of-IsOrder n (omega (arith, r.1))) is in
    let some = ne→== blk 0 (λ z. absurd (omega arith)) in
    record {
      lists = fl';
      holds = v';
      covers = λ q. rw (some, e) (omega (arith, covers q, k.covers q));
      count = rw (some, e) (omega (arith, count, k.count, v'.count, k.holds.count));
      requests = (r, k.requests);
    }

pub alloc-Kept :
    {start : ℕ → ℕ} {total : ℕ} {allocs : List (ℕ × ℕ)} {s : State} (n : ℕ)
    → total ≤ 2 ^ 31
    → Request (0, n)
    → Kept start total allocs s
    → (out : ℕ × State) × (buddy_alloc_pages n s ≡ done out)
      × Kept start total ((out.0, n) ∷ allocs) out.1
alloc-Kept {start} {total} {allocs} {s} n small r k =
    let (out, run, o) =
      buddy_alloc_pages-Outcome n k.holds (omega (arith, k.holds.count, k.count)) in
    (out, run, Outcome-Kept n r k out o)
