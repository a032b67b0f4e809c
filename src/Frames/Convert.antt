-- ===== src/Frames/Convert.antt =====
-- The conversions undo one another.
use lab.Base.{ℕ, ◌+◌, ◌-◌, ◌*◌, ◌/◌, ◌^◌, ◌≤◌, ◌<◌, ◌≡◌, refl, lt→leb, done, arith}
use lab.Frames.{Frames, ppn, page2ppn, page2pa, pa2page}

-- For a descriptor of a frame below `npage`, with page frames below 2 ^ 52, the address of its frame
-- leads back to it, and is the one of the first byte of that frame.
pub pa2page-page2pa :
    (f : Frames) (page : ℕ)
    → f.pages ≤ page
    → page < 2 ^ 64
    → page - f.pages + f.nbase < f.npage
    → f.npage ≤ 2 ^ 52
    → (pa2page f (page2pa f page) ≡ done page)
      × (page2pa f page ≡ (page - f.pages + f.nbase) * 4096)
unfolding page2pa pa2page page2ppn ppn
pa2page-page2pa f page lo hi inside small =
    let pa = page2pa f page in
    let n = page - f.pages + f.nbase in
    let e : pa ≡ n * 4096 = omega arith in
    let q : pa / 2 ^ 12 ≡ n = omega (arith, e) in
    let back : f.pages + n - f.nbase ≡ page = omega arith in
    (rw (q, lt→leb f.npage n inside, back) refl, e)
