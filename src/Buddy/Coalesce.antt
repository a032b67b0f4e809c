-- ===== src/Buddy/Coalesce.antt =====
-- The loop of `buddy_free_pages`, which joins a block with its buddy while that is free.
use native.Mathlib.Decide.{dec_lt}
use lab.Base.{
  ℕ, zero, suc, ◌+◌, ◌-◌, ◌^◌, ◌≤◌, ◌<◌, ◌≡◌, ◌≢◌, refl, sym, ap, ◌⊎◌, inl, inr, List, [], ◌∷◌,
  ◌++◌, ltb, lt→ltb, le→ltb, if◌then◌else◌, Bool-cases, ne→==, done, arith,
}
use lab.Buddy.{State, max_order, buddy_add_free, buddy_remove_free, buddy_address, merge_loop}
use lab.Buddy.Lists.{
  Lists, update, weigh, holds_page, free_pages_in, cover, Halves, pow_double, pow_pos,
}
use lab.Buddy.Holds.{Holds}
use lab.Buddy.Add.{add-Holds, add_weigh}
use lab.Buddy.Remove.{remove-Holds, remove_weigh, remove_free, remove_above}
use lab.Buddy.Find.{find_and_remove-cases}
use lab.Buddy.Xor.{bit_xor-pow}

Next : (o a b : ℕ) → Type 0
Next o a b = (a ≡ b + 2 ^ o) ⊎ (a + 2 ^ o ≡ b)

-- The buddy stands just behind the block or just in front of it.
buddy-Next : (pages blk o : ℕ) → pages ≤ blk → Next o (buddy_address pages blk o) blk
unfolding buddy_address Next
buddy-Next pages blk o h = elim (bit_xor-pow o (blk - pages)) [
  | inl e ↦ inl (omega (arith, e))
  | inr e ↦ inr (omega (arith, e))
]

buddy-above : (pages blk o : ℕ) → pages ≤ buddy_address pages blk o
unfolding buddy_address
buddy-above pages blk o = omega arith

-- The pages of the block are free at the end, and those that were free still are.
abbrev pub Gained : (o blk : ℕ) → Lists → Lists → Type 0
Gained o blk fl fl' = (w : ℕ → ℕ → ℕ) → Halves w → weigh w fl' ≡ weigh w fl + w o blk

-- As before, but for a block of the largest order, at `top`, that is on no list any more: this
-- takes a free block of that order.
abbrev pub Lost : (top o blk : ℕ) → Lists → Lists → Type 0
Lost top o blk fl fl' = (w : ℕ → ℕ → ℕ) → Halves w → weigh w fl' + w 10 top ≡ weigh w fl + w o blk

-- How the coalescing ends.
pub data Coalesced (o blk : ℕ) (fl : Lists) (s' : State) : Type 0 where
  gained : (fl' : Lists) → Holds s' fl' → Gained o blk fl fl' → Coalesced o blk fl s'
  lost :
      (fl' : Lists) (top : ℕ)
      → fl 10 ≢ []
      → Holds s' fl'
      → Lost top o blk fl fl'
      → Coalesced o blk fl s'

lower : ℕ → ℕ → ℕ
lower a b = if ltb a b then a else b

upper : ℕ → ℕ → ℕ
upper a b = if ltb a b then b else a

-- The two blocks together are the block of the next order at the lower of them.
Halves-lower :
    (w : ℕ → ℕ → ℕ) (o a b : ℕ) → Halves w → Next o a b → w (o + 1) (lower a b) ≡ w o b + w o a
unfolding Next lower
Halves-lower w o a b hw (inl e) =
    let up : o + 1 ≡ suc o = omega arith in rw (le→ltb a b (omega arith), up, e) (hw o b)
Halves-lower w o a b hw (inr e) =
    let up : o + 1 ≡ suc o = omega arith in
    let less : a < b = omega (arith, pow_pos o) in
    let both : w (suc o) a ≡ w o a + w o b = rw (sym e) (hw o a) in
    rw (lt→ltb a b less, up) (omega (arith, both))

lower-upper : (w : ℕ → ℕ → ℕ) (o a b : ℕ) → w o (lower a b) + w o (upper a b) ≡ w o b + w o a
unfolding lower upper
lower-upper w o a b = elim (Bool-cases (ltb a b)) [
  | inl e ↦ rw e (omega arith)
  | inr e ↦ rw e (omega arith)
]

lower-free :
    (o a b : ℕ) (c : ℕ → ℕ)
    → Next o a b
    → ((q : ℕ) → a ≤ q → q < a + 2 ^ o → c q ≡ 0)
    → ((q : ℕ) → b ≤ q → q < b + 2 ^ o → c q ≡ 0)
    → (q : ℕ) → lower a b ≤ q
    → q < lower a b + 2 ^ (o + 1)
    → c q ≡ 0
unfolding Next lower
lower-free o a b c n fa fb q =
    let up : o + 1 ≡ suc o = omega arith in
    rw up (elim n [
      | inl e ↦ rw (le→ltb a b (omega arith)) (λ l h. elim (dec_lt q a) [
        | yes less ↦ fb q l (omega arith)
        | no more ↦ fa q (omega arith) (omega (arith, pow_double o))
      ])
      | inr e ↦
          let less : a < b = omega (arith, pow_pos o) in
          rw (lt→ltb a b less) (λ l h. elim (dec_lt q b) [
            | yes below ↦ fa q l (omega arith)
            | no more ↦ fb q (omega arith) (omega (arith, pow_double o))
          ])
    ])

-- Coalescing that took the buddy first.
Coalesced-step :
    (o addr blk : ℕ) (fl fl1 : Lists) (s' : State)
    → Next o addr blk
    → fl1 10 ≡ fl 10
    → ((w : ℕ → ℕ → ℕ) → weigh w fl1 + w o addr ≡ weigh w fl)
    → Coalesced (o + 1) (lower addr blk) fl1 s'
    → Coalesced o blk fl s'
Coalesced-step o addr blk fl fl1 s' n same took (gained fl' v g) =
    gained fl' v (λ w hw. omega (arith, g w hw, took w, Halves-lower w o addr blk hw n))
Coalesced-step o addr blk fl fl1 s' n same took (lost fl' top full v g) =
    lost fl' top (rw same at (full)) v
      (λ w hw. omega (arith, g w hw, took w, Halves-lower w o addr blk hw n))

-- The buddy of a block of the largest order is taken, and the lower of the two put back alone.
Coalesced-lost :
    (o addr blk : ℕ) {s1 : State} (fl fl1 : Lists)
    → o ≡ 10
    → fl 10 ≢ []
    → Holds s1 fl1
    → 10 < lower addr blk
    → ((w : ℕ → ℕ → ℕ) → weigh w fl1 + w o addr ≡ weigh w fl)
    → ((q : ℕ) → lower addr blk ≤ q → q < lower addr blk + 2 ^ (o + 1) → cover fl1 q ≡ 0)
    → free_pages_in fl < 2 ^ 32
    → Coalesced o blk fl (buddy_add_free (lower addr blk) max_order s1)
Coalesced-lost o addr blk {s1} fl fl1 e full v above took free small =
    let low = lower addr blk in
    let free' : (q : ℕ) → low ≤ q → q < low + 2 ^ 10 → cover fl1 q ≡ 0 =
      λ q l r. free q l (rw e (omega (arith, r))) in
    let room : free_pages_in fl1 + 2 ^ 10 < 2 ^ 32 =
      omega (arith, took (λ o p. 2 ^ o), ap (λ i. 2 ^ i) e) in
    lost (update 10 (low ∷ fl1 10) fl1) (upper addr blk) full
      (add-Holds v 10 low (omega arith) above free' room)
      (λ w hw. omega (
        arith,
        took w,
        ap (λ i. w i addr) e,
        ap (λ i. w i blk) e,
        lower-upper w 10 addr blk,
        add_weigh v 10 low (omega arith) above free' room w,
      ))

filled :
    (fl : Lists) (o : ℕ) (pre post : List ℕ) (p : ℕ) → o ≡ 10 → fl o ≡ pre ++ p ∷ post → fl 10 ≢ []
filled fl o [] post p e q z = cc
filled fl o (x ∷ pre) post p e q z = cc

lower-le : (a b c : ℕ) → c ≤ a → c ≤ b → c ≤ lower a b
unfolding lower
lower-le a b c ha hb = elim (Bool-cases (ltb a b)) [ inl e ↦ rw e ha | inr e ↦ rw e hb ]

module _ (pages : ℕ) (high : 10 < pages) where
  pub merge-Coalesced :
      (k o blk : ℕ) (s : State) (fl : Lists)
      → Holds s fl
      → k + o ≡ 11
      → o < 11
      → pages ≤ blk
      → ((q : ℕ) → blk ≤ q → q < blk + 2 ^ o → cover fl q ≡ 0)
      → free_pages_in fl + 2 ^ o < 2 ^ 32
      → (s' : State) × (merge_loop pages k o blk s ≡ done s') × Coalesced o blk fl s'
  unfolding merge_loop lower
  merge-Coalesced zero o blk s fl v e h low free room = absurd (omega arith)
  merge-Coalesced (suc k) o blk s fl v e h low free room =
      let addr = buddy_address pages blk o in
      elim (find_and_remove-cases pages blk o v h) [
        | inl (run, n) ↦ (
          buddy_add_free blk o s,
          rw run,
          gained (update o (blk ∷ fl o) fl) (add-Holds v o blk h (omega arith) free room)
              (λ w hw. add_weigh v o blk h (omega arith) free room w),
        )
        | inr (pre, post, q, run) ↦
            let s1 = (buddy_remove_free addr s).1 in
            let fl1 = update o (pre ++ post) fl in
            let v1 = remove-Holds v o addr h pre post q in
            let took = remove_weigh v o addr h pre post q in
            let next = buddy-Next pages blk o low in
            let free1 =
              lower-free o addr blk (cover fl1) next (remove_free v o addr h pre post q)
                (λ p l r. omega (arith, took (holds_page p), free p l r)) in
            let fits : free_pages_in fl1 + 2 ^ o ≡ free_pages_in fl = took (λ o p. 2 ^ o) in
            let up : 2 ^ (o + 1) ≡ 2 ^ suc o = ap (λ i. 2 ^ i) (omega arith) in
            let above = lower-le addr blk 11 (remove_above v o addr h pre post q) (omega arith) in
            elim (Bool-cases (ltb max_order (o + 1))) [
              | inl top ↦ (
                buddy_add_free (lower addr blk) max_order s1,
                rw (run, top) refl,
                Coalesced-lost o addr blk fl fl1 (ground arith)
                    (filled fl o pre post addr (ground arith) q) v1 above took free1 v.small,
              )
              | inr more ↦
                  let (s', on, c) =
                    merge-Coalesced k (o + 1) (lower addr blk) s1 fl1 v1 (omega arith)
                      (ground arith) (lower-le addr blk pages (buddy-above pages blk o) low) free1
                      (omega (arith, fits, up, pow_double o, room)) in
                  (
                    s',
                    rw (run, more) on,
                    Coalesced-step o addr blk fl fl1 s' next (rw (ne→== 10 o (ground arith)) refl)
                        took c,
                  )
            ]
      ]
