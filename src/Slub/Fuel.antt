-- ===== src/Slub/Fuel.antt =====
-- More rounds for the walk over the slabs do not change what `kmalloc` gives.
use native.Mathlib.Decide.{ℕ_discrete}
use lab.Base.{
  ℕ, zero, suc, ◌≤◌, ◌≡◌, refl, ◌∙◌, Run, done, out_of_fuel, panicked, eq→==, ne→==, le→ltb, arith,
  ◌>>=◌, >>=-done,
}
use lab.Slub.{State, page_size, find_slab, kmalloc, kmalloc_object, size_to_index}

find_slab_more :
    {P : Type 0} (k more sp : ℕ) (s : State P) (found : ℕ)
    → k ≤ more
    → find_slab k sp s ≡ done found
    → find_slab more sp s ≡ done found
unfolding find_slab
find_slab_more zero more sp s found le e = cc
find_slab_more (suc k) zero sp s found le e = absurd (omega arith)
find_slab_more (suc k) (suc more) sp s found le e = elim (ℕ_discrete sp 0) [
  | yes none ↦ rw (eq→== sp 0 none) (rw (eq→== sp 0 none) at e)
  | no some_page ↦ elim (ℕ_discrete (s.slabs sp).free_list 0) [
    | yes full ↦
        rw (ne→== sp 0 some_page, eq→== (s.slabs sp).free_list 0 full)
          (find_slab_more k more (s.slabs sp).next s found (omega arith)
            (rw (ne→== sp 0 some_page, eq→== (s.slabs sp).free_list 0 full) at e))
    | no free ↦
        rw (ne→== sp 0 some_page, ne→== (s.slabs sp).free_list 0 free)
          (rw (ne→== sp 0 some_page, ne→== (s.slabs sp).free_list 0 free) at e)
  ]
]

done_inside :
    {A B : Type 0} (m : Run A) (f : A → Run B) (b : B)
    → (m >>= f) ≡ done b
    → (a : A) × (m ≡ done a) × (f a ≡ done b)
done_inside (done a) f b e = (a, refl, e)
done_inside panicked f b e = cc
done_inside out_of_fuel f b e = cc

module _ {P : Type 0} (alloc_pages : ℕ → P → Run (ℕ × P)) (page_base nbase offset : ℕ) where
  pub kmalloc_more :
      (k more size : ℕ) (s : State P) (r : ℕ × State P)
      → size ≤ page_size
      → k ≤ more
      → kmalloc alloc_pages page_base nbase offset k size s ≡ done r
      → kmalloc alloc_pages page_base nbase offset more size s ≡ done r
  unfolding kmalloc kmalloc_object
  kmalloc_more k more size s r small le e = elim (ℕ_discrete size 0) [
    | yes none ↦ rw (eq→== size 0 none) (rw (eq→== size 0 none) at e)
    | no some_bytes ↦
        let e' = rw (ne→== size 0 some_bytes, le→ltb page_size size small) at e in
        let (found, run, rest) =
          done_inside (find_slab k (s.caches (size_to_index size)).pages s) _ r e' in
        rw (ne→== size 0 some_bytes, le→ltb page_size size small)
          (>>=-done _ found
              (find_slab_more k more (s.caches (size_to_index size)).pages s found le run)
            ∙ rest)
  ]
