-- ===== src/Slub/Thread.antt =====
-- The free list that `slab_page_init` of kern/mm/slub.c leads through the objects of a page.
use lab.Base.{
  ℕ, zero, suc, ◌+◌, ◌*◌, ◌≤◌, ◌<◌, ◌≡◌, ◌≢◌, refl, sym, ◌∙◌, List, ◌∷◌, length, All, All-map,
  Distinct, arith,
}
use lab.Slub.{thread_objects, put}
use lab.Slub.Chain.{Chain, Chain-frame, put_here, put_there}

-- A free list through as many objects, each of them of a given kind, and none of them twice.
pub record Threaded (Q : ℕ → Type 0) (n : ℕ) (list : ℕ × (ℕ → ℕ)) : Type 0 where
  pub objects : List ℕ
  pub chain : Chain list.1 list.0 objects
  pub all : All Q objects
  pub distinct : Distinct objects
  pub size : length objects ≡ n

-- Rounds i to i + k lead the list through the objects of these numbers, in front of the earlier ones.
pub thread_objects-Threaded :
    {Q : ℕ → Type 0} (k base size i prev : ℕ) (next : ℕ → ℕ)
    → 0 < size
    → 0 < base
    → ((j : ℕ) → i ≤ j → j < i + k → Q (base + j * size))
    → (t : Threaded Q i (prev, next)) → All (λ x. x < base + i * size) t.objects
    → Threaded Q (i + k) (thread_objects k base size i prev next)
unfolding thread_objects
thread_objects-Threaded zero base size i prev next pos above q t lower = rw (plus_zero i) t
  where
    plus_zero : (n : ℕ) → n + 0 ≡ n
    plus_zero n = omega arith
thread_objects-Threaded {Q} (suc k) base size i prev next pos above q t lower =
    let o = base + i * size in
    let e : i + suc k ≡ i + 1 + k = omega arith in
    let step : (i + 1) * size ≡ i * size + size = grind arith in
    let out = All-map (λ x. x < o) (λ x. o ≢ x) t.objects (λ x l z. absurd (omega arith)) lower in
    rw e (
      thread_objects-Threaded {Q = Q} k base size (i + 1) o (put o prev next) pos above
        (λ j l h. q j (omega arith) (omega arith))
        (record {
          objects = o ∷ t.objects;
          chain = (
            refl,
            (λ z. absurd (omega arith)),
            rw (put_here o prev next) (
                Chain-frame next (put o prev next) prev t.objects
                  (All-map (λ x. o ≢ x) _ t.objects
                    (λ x ne. put_there o x prev next (λ z. ne (sym z))) out)
                  t.chain),
          );
          all = (q i (omega arith) (omega arith), t.all);
          distinct = (out, t.distinct);
          size = omega (arith, t.size);
        })
        (omega (arith, step), All-map (λ x. x < o) _ t.objects (λ x l. omega (arith, step)) lower))

-- It writes to these objects only.
pub thread_objects-frame :
    (k base size i prev : ℕ) (next : ℕ → ℕ) (x : ℕ)
    → ((j : ℕ) → i ≤ j → j < i + k → x ≢ base + j * size)
    → (thread_objects k base size i prev next).1 x ≡ next x
unfolding thread_objects
thread_objects-frame zero base size i prev next x out = refl
thread_objects-frame (suc k) base size i prev next x out =
    let o = base + i * size in
    thread_objects-frame k base size (i + 1) o (put o prev next) x
      (λ j l h. out j (omega arith) (omega arith))
    ∙ put_there o x prev next (out i (omega arith) (omega arith))
