-- ===== src/Buddy/Order.antt =====
-- `size_to_order`: the least order whose blocks have enough pages.
use native.Mathlib.Decide.{dec_lt}
use lab.Base.{
  ℕ, zero, suc, ◌+◌, ◌*◌, ◌^◌, ◌≤◌, ◌<◌, ◌≡◌, refl, ap, inl, inr, true, ltb, lt→ltb, u32,
  out_of_fuel, Bool-cases, done, arith,
}
use native.Mathlib.Numerals.{add-one}
use lab.Buddy.{order_loop, size_to_order}
use lab.Buddy.Lists.{pow_double}

-- `o` is the least order with 2 ^ o pages or more than n.
pub record IsOrder (n o : ℕ) : Type 0 where
  pub enough : n ≤ 2 ^ o
  pub least : (m : ℕ) → m < o → 2 ^ m < n

pub pow_mono : (k m : ℕ) → k ≤ m → 2 ^ k ≤ 2 ^ m
pow_mono k zero h = let e : k ≡ 0 = omega arith in rw e (omega arith)
pow_mono k (suc m) h = elim (dec_lt k (suc m)) [
  | yes less ↦ omega (arith, pow_double m, pow_mono k m (omega arith))
  | no more ↦ let e : k ≡ suc m = omega arith in rw e (omega arith)
]

order_loop-IsOrder :
    (k n o : ℕ)
    → n ≤ 2 ^ 31
    → k + o ≡ 33
    → ((m : ℕ) → m < o → 2 ^ m < n)
    → (r : ℕ) × (order_loop k n (2 ^ o) o ≡ done r) × IsOrder n r
unfolding order_loop
order_loop-IsOrder zero n o small e least = absurd (omega (arith, least 32 (omega arith)))
order_loop-IsOrder (suc k) n o small e least = elim (Bool-cases (ltb (2 ^ o) n)) [
  | inl more ↦
      let less : 2 ^ o < n = ground arith in
      let below : o < 31 = under o less in
      let shift : u32 (2 ^ o * 2) ≡ 2 ^ (o + 1) = omega (
        arith,
        pow_double o,
        ap (λ (x : ℕ). 2 ^ x) (add-one o),
        pow_mono (suc o) 31 (omega arith),
      ) in
      rw (more, shift)
        (order_loop-IsOrder k n (o + 1) small (omega arith) (λ m h. elim (dec_lt m o) [
          | yes h' ↦ least m h'
          | no h' ↦ let q : m ≡ o = omega arith in rw q less
        ]))
  | inr enough ↦ rw enough (o, refl, record { enough = ground arith; least = least })
]
  where
    under : (x : ℕ) → 2 ^ x < n → x < 31
    under x h = elim (dec_lt x 31) [
      | yes below ↦ below
      | no above ↦ absurd (omega (arith, pow_mono 31 x (omega arith)))
    ]

-- Up to 2 ^ 31 the loop ends, with the least order whose blocks have n pages.
pub size_to_order-IsOrder :
    (n : ℕ) → n ≤ 2 ^ 31 → (o : ℕ) × (size_to_order n ≡ done o) × IsOrder n o
unfolding size_to_order
size_to_order-IsOrder n h = order_loop-IsOrder 33 n 0 h (omega arith) (λ m lt. elim lt [ ])

pub order_below : (n o k : ℕ) → n ≤ 2 ^ k → IsOrder n o → o ≤ k
order_below n o k h is = elim (dec_lt k o) [
  | yes less ↦ absurd (omega (arith, is.least k less))
  | no more ↦ omega arith
]

pub order_above : (n o k : ℕ) → 2 ^ k < n → IsOrder n o → k < o
order_above n o k h is = elim (dec_lt k o) [
  | yes less ↦ less
  | no more ↦ absurd (omega (arith, is.enough, pow_mono o k (omega arith)))
]

pub IsOrder-unique : (n o o' : ℕ) → IsOrder n o → IsOrder n o' → o ≡ o'
IsOrder-unique n o o' a b =
    omega (arith, order_below n o o' b.enough a, order_below n o' o a.enough b)

-- The shifted bit, or 0 once it has left the word.
data Shifted : ℕ → Type 0 where
  bit : (j : ℕ) → j < 32 → Shifted (2 ^ j)
  gone : Shifted 0

Shifted-le : {s : ℕ} → Shifted s → s ≤ 2 ^ 31
Shifted-le (bit j h) = pow_mono j 31 (omega arith)
Shifted-le gone = omega arith

Shifted-shift : {s : ℕ} → Shifted s → Shifted (u32 (s * 2))
Shifted-shift gone = gone
Shifted-shift (bit j h) = elim (dec_lt j 31) [
  | yes less ↦
      let e : u32 (2 ^ j * 2) ≡ 2 ^ suc j =
        omega (arith, pow_double j, pow_mono (suc j) 31 (omega arith)) in
      rw e (bit (suc j) (omega arith))
  | no more ↦ let q : j ≡ 31 = omega arith in let e : u32 (2 ^ j * 2) ≡ 0 = rw q in rw e gone
]

order_loop_diverges : (k n s o : ℕ) → 2 ^ 31 < n → Shifted s → order_loop k n s o ≡ out_of_fuel
unfolding order_loop
order_loop_diverges zero n s o h b = refl
order_loop_diverges (suc k) n s o h b =
    let less : ltb s n ≡ true = lt→ltb s n (omega (arith, Shifted-le b)) in
    rw less (order_loop_diverges k n (u32 (s * 2)) (o + 1) h (Shifted-shift b))

-- Above 2 ^ 31 the loop of `size_to_order` does not end: after any number k of rounds it goes on,
-- since the bit is shifted out of the word before it reaches n.
pub size_to_order_diverges : (k n : ℕ) → 2 ^ 31 < n → order_loop k n 1 0 ≡ out_of_fuel
size_to_order_diverges k n h = order_loop_diverges k n 1 0 h (bit 0 (omega arith))
