-- ===== src/Buddy/Init.antt =====
-- What `buddy_init` leaves behind.
use native.Mathlib.Decide.{dec_lt}
use lab.Base.{ℕ, zero, suc, ◌+◌, ◌^◌, ◌≤◌, ◌<◌, ◌≡◌, refl, [], arith}
use lab.LinkList.{Store, list_init, set_next, set_prev}
use lab.Buddy.{State, init_lists, buddy_init}
use lab.Buddy.Lists.{holds_page, weigh-empty}
use lab.Buddy.Holds.{Holds}

init_lists-below : (k i : ℕ) (l : Store) (j : ℕ) → j < i → init_lists k i l j ≡ l j
unfolding init_lists list_init set_next set_prev
init_lists-below zero i l j h = refl
init_lists-below (suc k) i l j h =
    ground (arith, init_lists-below k (i + 1) (list_init i l) j (omega arith))

init_lists_self :
    (k i : ℕ) (l : Store) (j : ℕ)
    → i ≤ j
    → j < i + k
    → (((init_lists k i l j).next ≡ j) × ((init_lists k i l j).prev ≡ j))
unfolding init_lists
init_lists_self zero i l j lo hi = absurd (omega arith)
init_lists_self (suc k) i l j lo hi = elim (dec_lt i j) [
  | yes less ↦ init_lists_self k (i + 1) (list_init i l) j (omega arith) (omega arith)
  | no more ↦
      let e : j ≡ i = omega arith in
      rw (e, init_lists-below k (i + 1) (list_init i l) i (omega arith))
        (unfold list_init set_next set_prev in (ground arith, ground arith))
]

-- From any state, `buddy_init` leaves eleven empty lists and no free page.
pub buddy_init-Holds : (s : State) → Holds (buddy_init s) (λ o. [])
unfolding buddy_init
buddy_init-Holds s = record {
  rings = λ o h.
      let e = init_lists_self 11 0 s.links o (omega arith) (omega arith) in
      record { distinct = (tt, tt); links = ((e.0, e.1), tt) };
  descs = λ o h. tt;
  disjoint = λ q. omega (arith, weigh-empty (holds_page q));
  count = omega (arith, weigh-empty (λ o p. 2 ^ o));
  small = omega (arith, weigh-empty (λ o p. 2 ^ o));
}
