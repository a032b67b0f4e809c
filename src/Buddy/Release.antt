-- ===== src/Buddy/Release.antt =====
-- Giving back a block that the buddy manager has handed out.
use lab.Base.{ℕ, zero, suc, ◌+◌, ◌^◌, ◌≤◌, ◌<◌, ◌≡◌, ◌≢◌, refl, List, ◌∷◌, ne→==, done, arith}
use lab.Base.Program.{call-done}
use lab.Buddy.{State, buddy_alloc_pages, buddy_free_pages, buddy_nr_free_pages}
use lab.Buddy.Lists.{holds_page, cover, pow_pos, Halves-holds_page, Halves-size}
use lab.Buddy.Coalesce.{Coalesced, gained, lost}
use lab.Buddy.Free.{buddy_free_pages-Coalesced}
use lab.Buddy.Kept.{order_of, order_of-IsOrder, held_some, Kept, drop-Kept}
use lab.Buddy.Check.{free_if}

module _ (pages : ℕ) (high : 10 < pages) {start : ℕ → ℕ} {total : ℕ} (small : total ≤ 2 ^ 31)
    (once : (q : ℕ) → start q ≤ 1) (low : (q : ℕ) → 0 < start q → pages ≤ q) where
  Coalesced-Kept :
      {allocs : List (ℕ × ℕ)} {s s' : State} (p n : ℕ)
      → p ≢ 0
      → (k : Kept start total ((p, n) ∷ allocs) s) → Coalesced (order_of n) p k.lists s'
      → Kept start total allocs s'
  Coalesced-Kept {allocs} p n some k (gained fl' v g) = record {
    lists = fl';
    holds = v;
    covers = λ q. omega (
      arith,
      g (holds_page q) (Halves-holds_page q),
      k.covers q,
      held_some (holds_page q) p n allocs some,
    );
    count =
        omega
          (arith, g (λ o p. 2 ^ o) Halves-size, k.count, held_some (λ o p. 2 ^ o) p n allocs some);
    requests = k.requests.1;
  }
  Coalesced-Kept {allocs} p n some k (lost fl' top full v g) = record {
    lists = fl';
    holds = v;
    covers = λ q. omega (
      arith,
      g (holds_page q) (Halves-holds_page q),
      k.covers q,
      held_some (holds_page q) p n allocs some,
    );
    count =
        omega
          (arith, g (λ o p. 2 ^ o) Halves-size, k.count, held_some (λ o p. 2 ^ o) p n allocs some);
    requests = k.requests.1;
  }

  free_if-done :
      (p n : ℕ) (s s' : State)
      → p ≢ 0
      → buddy_free_pages pages p n s ≡ done s'
      → free_if buddy_alloc_pages (buddy_free_pages pages) buddy_nr_free_pages p n s ≡ done (tt, s')
  unfolding free_if
  free_if-done p n s s' some run = rw (ne→== p 0 some) (call-done (buddy_free_pages pages p n) run)

  pub free_if-Kept :
      {allocs : List (ℕ × ℕ)} {s : State} (p n : ℕ)
      → Kept start total ((p, n) ∷ allocs) s
      → (s' : State) × (free_if buddy_alloc_pages (buddy_free_pages pages) buddy_nr_free_pages p n s
          ≡ done (tt, s'))
        × Kept start total allocs s'
  unfolding free_if
  free_if-Kept {allocs} {s} zero n k = (s, refl, drop-Kept n k)
  free_if-Kept {allocs} {s} (suc p) n k =
      let some : suc p ≢ 0 = λ z. absurd (omega arith) in
      let had = λ (q : ℕ). held_some (holds_page q) (suc p) n allocs some in
      let inside : (q : ℕ)
          → suc p ≤ q
          → q < suc p + 2 ^ order_of n
          → holds_page q (order_of n) (suc p) ≡ 1 =
        λ q lo hi. ground arith in
      let block : (q : ℕ) → suc p ≤ q → q < suc p + 2 ^ order_of n → cover k.lists q ≡ 0 =
        λ q lo hi. omega (arith, k.covers q, had q, inside q lo hi, once q) in
      let here : pages ≤ suc p = low (suc p) (
        omega (
          arith,
          k.covers (suc p),
          had (suc p),
          inside (suc p) (omega arith) (omega (arith, pow_pos (order_of n))),
        )) in
      let (s', run, c) =
        buddy_free_pages-Coalesced pages high (suc p) n (order_of n) k.holds k.requests.0.0
          k.requests.0.1 (order_of-IsOrder n (omega (arith, k.requests.0.1))) here block
          (omega (arith, k.count, held_some (λ o p. 2 ^ o) (suc p) n allocs some, small)) in
      (s', free_if-done (suc p) n s s' some run, Coalesced-Kept (suc p) n some k c)
