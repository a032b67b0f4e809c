-- ===== src/Strings/Copy.antt =====
-- Copying memory: `memmove`, `memcpy` and their loops.
use native.Mathlib.Decide.{dec_lt}
use lab.Base.{
  ℕ, zero, suc, ◌+◌, ◌-◌, ◌≤◌, ◌<◌, ◌≡◌, ◌≢◌, refl, ◌∙◌, ◌⊎◌, inl, inr, Bool-cases, ◌&&◌, ltb,
  arith,
}
use lab.Strings.{Memory, store, copy_up, copy_down, memmove, memcpy, memset}

-- `m'` has the n bytes that `m` has at `s` at `d`, and the other bytes of `m`.
pub record Copied (d s n : ℕ) (m m' : Memory) : Type 0 where
  pub inside : (i : ℕ) → i < n → m' (d + i) ≡ m (s + i)
  pub outside : (q : ℕ) → (q < d) ⊎ (d + n ≤ q) → m' q ≡ m q

at_zero : (d : ℕ) → d + zero ≡ d
at_zero d = omega arith

at_suc : (d i : ℕ) → d + suc i ≡ d + 1 + i
at_suc d i = omega arith

pub store-other : (p v q : ℕ) (m : Memory) → q ≢ p → store p v m q ≡ m q
unfolding store
store-other p v q m ne = ground arith

pub store-same : (p v : ℕ) (m : Memory) → store p v m p ≡ v
unfolding store
store-same p v m = ground arith

pub copy_up-outside : (n d s q : ℕ) (m : Memory) → (q < d) ⊎ (d + n ≤ q) → copy_up d s n m q ≡ m q
unfolding copy_up
copy_up-outside zero d s q m h = refl
copy_up-outside (suc n) d s q m h =
    copy_up-outside n (d + 1) (s + 1) q (store d (m s) m)
      (elim h [ inl a ↦ inl (omega arith) | inr b ↦ inr (omega arith) ])
    ∙ store-other d (m s) q m
        (λ e. elim h [ inl a ↦ absurd (omega arith) | inr b ↦ absurd (omega arith) ])

pub copy_up-inside :
    (n d s i : ℕ) (m : Memory) → (d ≤ s) ⊎ (s + n ≤ d) → i < n → copy_up d s n m (d + i) ≡ m (s + i)
unfolding copy_up
copy_up-inside zero d s i m apart h = absurd (omega arith)
copy_up-inside (suc n) d s zero m apart h =
    rw (at_zero d, at_zero s)
      (copy_up-outside n (d + 1) (s + 1) d (store d (m s) m) (inl (omega arith))
        ∙ store-same d (m s) m)
copy_up-inside (suc n) d s (suc i) m apart h =
    let on : (d + 1 ≤ s + 1) ⊎ (s + 1 + n ≤ d + 1) = elim apart [
      | inl a ↦ inl (omega arith)
      | inr b ↦ inr (omega arith)
    ] in
    let ne : s + 1 + i ≢ d =
      λ e. elim apart [ inl a ↦ absurd (omega arith) | inr b ↦ absurd (omega arith) ] in
    rw (at_suc d i, at_suc s i)
      (copy_up-inside n (d + 1) (s + 1) i (store d (m s) m) on (omega arith)
        ∙ store-other d (m s) (s + 1 + i) m ne)

back : (d n : ℕ) → d + suc n - 1 ≡ d + n
back d n = omega arith

copy_down-outside :
    (n d s q : ℕ) (m : Memory) → (q < d) ⊎ (d + n ≤ q) → copy_down (d + n) (s + n) n m q ≡ m q
unfolding copy_down
copy_down-outside zero d s q m h = refl
copy_down-outside (suc n) d s q m h =
    rw (back d n, back s n)
      (copy_down-outside n d s q (store (d + n) (m (s + n)) m)
          (elim h [ inl a ↦ inl a | inr b ↦ inr (omega arith) ])
        ∙ store-other (d + n) (m (s + n)) q m
            (λ e. elim h [ inl a ↦ absurd (omega arith) | inr b ↦ absurd (omega arith) ]))

copy_down-inside :
    (n d s i : ℕ) (m : Memory) → s ≤ d → i < n → copy_down (d + n) (s + n) n m (d + i) ≡ m (s + i)
unfolding copy_down
copy_down-inside zero d s i m le h = absurd (omega arith)
copy_down-inside (suc n) d s i m le h =
    let m' = store (d + n) (m (s + n)) m in
    rw (back d n, back s n)
      (elim (dec_lt i n) [
        | yes less ↦
            copy_down-inside n d s i m' le less
            ∙ store-other (d + n) (m (s + n)) (s + i) m (λ e. absurd (omega arith))
        | no more ↦
            let e : i ≡ n = omega arith in
            rw e (
              copy_down-outside n d s (d + n) m' (inr (omega arith))
              ∙ store-same (d + n) (m (s + n)) m)
      ])

-- `memmove` copies the n bytes as they were before, also when the two areas overlap, and writes
-- nothing else.
pub memmove-Copied : (dst src n : ℕ) (m : Memory) → Copied dst src n m (memmove dst src n m)
unfolding memmove
memmove-Copied dst src n m = elim (Bool-cases (ltb src dst && ltb dst (src + n))) [
  | inl down ↦ rw down record {
    inside = λ i h. copy_down-inside n dst src i m (ground arith) h;
    outside = λ q h. copy_down-outside n dst src q m h;
  }
  | inr up ↦
      let apart : (dst ≤ src) ⊎ (src + n ≤ dst) = elim (dec_lt src dst) [
        | yes less ↦ inr (ground arith)
        | no more ↦ inl (omega arith)
      ] in
      rw up record {
        inside = λ i h. copy_up-inside n dst src i m apart h;
        outside = λ q h. copy_up-outside n dst src q m h;
      }
]

-- `memcpy` does so when the areas do not overlap, or the target begins first.
pub memcpy-Copied :
    (dst src n : ℕ) (m : Memory)
    → (dst ≤ src) ⊎ (src + n ≤ dst)
    → Copied dst src n m (memcpy dst src n m)
unfolding memcpy
memcpy-Copied dst src n m apart = record {
  inside = λ i h. copy_up-inside n dst src i m apart h;
  outside = λ q h. copy_up-outside n dst src q m h;
}

memset-outside : (n p c q : ℕ) (m : Memory) → (q < p) ⊎ (p + n ≤ q) → memset p c n m q ≡ m q
unfolding memset
memset-outside zero p c q m h = refl
memset-outside (suc n) p c q m h =
    memset-outside n (p + 1) c q (store p c m)
      (elim h [ inl a ↦ inl (omega arith) | inr b ↦ inr (omega arith) ])
    ∙ store-other p c q m
        (λ e. elim h [ inl a ↦ absurd (omega arith) | inr b ↦ absurd (omega arith) ])

memset-inside : (n p c i : ℕ) (m : Memory) → i < n → memset p c n m (p + i) ≡ c
unfolding memset
memset-inside zero p c i m h = absurd (omega arith)
memset-inside (suc n) p c zero m h =
    rw (at_zero p)
      (memset-outside n (p + 1) c p (store p c m) (inl (omega arith)) ∙ store-same p c m)
memset-inside (suc n) p c (suc i) m h =
    rw (at_suc p i) (memset-inside n (p + 1) c i (store p c m) (omega arith))

-- `memset` fills the n bytes and writes nothing else.
pub memset_lem :
    (n p c : ℕ) (m : Memory)
    → ((i : ℕ) → i < n → memset p c n m (p + i) ≡ c)
      × ((q : ℕ) → (q < p) ⊎ (p + n ≤ q) → memset p c n m q ≡ m q)
memset_lem n p c m = ((λ i h. memset-inside n p c i m h), λ q h. memset-outside n p c q m h)
