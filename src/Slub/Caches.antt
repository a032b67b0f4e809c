-- ===== src/Slub/Caches.antt =====
-- What `slub_init` does to the caches, and what `kfree` leaves alone.
use native.Mathlib.Decide.{ℕ_discrete}
use native.Mathlib.Nat.{pow-suc}
use lab.Base.{
  Bool, true, false, leb, ◌==◌, if◌then◌else◌, ◌/◌, ℕ, zero, suc, ◌+◌, ◌*◌, ◌^◌, ◌≤◌, ◌<◌, ◌≡◌,
  refl, ◌∙◌, arith,
}
use lab.Slub.{State, Cache, page_size, init_caches, kfree}
use lab.Slub.Chain.{put_here, put_there}
use lab.Slub.Objects.{class_size}

-- The caches from number i on are set up, the others are as before.
init_caches-below : (k i j : ℕ) (caches : ℕ → Cache) → j < i → init_caches k i caches j ≡ caches j
unfolding init_caches
init_caches-below zero i j caches h = refl
init_caches-below (suc k) i j caches h =
    init_caches-below k (i + 1) j _ (omega arith)
    ∙ put_there i j _ caches (λ e. absurd (omega arith))

pub eight : (i : ℕ) → 2 ^ (3 + i) ≡ 8 * 2 ^ i
eight i =
    let e : 3 + i ≡ suc (suc (suc i)) = omega arith in
    rw e (omega (arith, pow-suc 2 i, pow-suc 2 (suc i), pow-suc 2 (suc (suc i))))

pub init_caches-set :
    (k i j : ℕ) (caches : ℕ → Cache)
    → i ≤ j
    → j < i + k
    → init_caches k i caches j ≡ record { obj_size = class_size j; pages = 0 }
unfolding init_caches
init_caches-set zero i j caches lo hi = absurd (omega arith)
init_caches-set (suc k) i j caches lo hi = elim (ℕ_discrete j i) [
  | yes e ↦
      let size = eight i in
      rw e (init_caches-below k (i + 1) i _ (omega arith) ∙ (put_here i _ caches ∙ rw size refl))
  | no ne ↦ init_caches-set k (i + 1) j _ (omega arith) (omega arith)
]

pub kfree-pmm : {P : Type 0} (ptr : ℕ) (s : State P) → (kfree ptr s).pmm ≡ s.pmm
unfolding kfree
kfree-pmm {P} ptr s =
    branch (ptr == 0) s _
      (branch (leb 10 (s.slabs (ptr / page_size * page_size)).cache_idx) s _ refl)
  where
    branch : (b : Bool) (x y : State P) → y.pmm ≡ x.pmm → (if b then x else y).pmm ≡ x.pmm
    branch true x y e = refl
    branch false x y e = e
