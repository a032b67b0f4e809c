-- ===== src/Print/Buffer.antt =====
-- What `vsnprintf` leaves in its buffer.
use lab.Base.{
  ℕ, zero, suc, ◌+◌, ◌-◌, ◌%◌, ◌^◌, ◌≤◌, ◌<◌, ◌≡◌, refl, ◌∙◌, ◌⊎◌, inl, inr, List, [], ◌∷◌, length,
  ltb, lt→ltb, le→ltb, ne→==, if◌then◌else◌, some, sub64, arith,
}
use lab.Strings.{Memory, store}
use lab.Strings.Copy.{store-other, store-same}
use lab.Print.{SprintBuf, sprintputch, put_all, vsnprintf}

-- The first n of the characters, as bytes, stand at p.
abbrev pub Written : Memory → ℕ → ℕ → List ℕ → Type 0
Written m p zero cs = Unit
Written m p (suc n) [] = Unit
Written m p (suc n) (c ∷ cs) = (m p ≡ c % 2 ^ 8) × Written m (p + 1) n cs

-- How many characters there is room for.
abbrev pub stored : ℕ → List ℕ → ℕ
stored n cs = if ltb n (length cs) then n else length cs

record PutAll (b : SprintBuf) (n : ℕ) (cs : List ℕ) (b' : SprintBuf) : Type 0 where
  at : b'.buf ≡ b.buf + stored n cs
  count : b'.cnt ≡ b.cnt + length cs
  before : (q : ℕ) → q < b.buf → b'.memory q ≡ b.memory q
  behind : (q : ℕ) → b.ebuf ≤ q → b'.memory q ≡ b.memory q
  text : Written b'.memory b.buf n cs

put_all-PutAll :
    (n : ℕ) (cs : List ℕ) (b : SprintBuf) → b.buf + n ≡ b.ebuf → PutAll b n cs (put_all cs b)
unfolding put_all sprintputch
put_all-PutAll zero [] b e = record {
  at = ground arith;
  count = omega arith;
  before = λ q h. refl;
  behind = λ q h. refl;
  text = tt;
}
put_all-PutAll (suc n) [] b e = record {
  at = ground arith;
  count = omega arith;
  before = λ q h. refl;
  behind = λ q h. refl;
  text = tt;
}
put_all-PutAll zero (c ∷ cs) b e =
    let full = le→ltb b.buf b.ebuf (omega arith) in
    let r = put_all-PutAll zero cs (record b { cnt = b.cnt + 1 }) e in
    rw full record {
      at = ground (arith, r.at);
      count = omega (arith, r.count);
      before = r.before;
      behind = r.behind;
      text = tt;
    }
put_all-PutAll (suc n) (c ∷ cs) b e =
    let room = lt→ltb b.buf b.ebuf (omega arith) in
    let b1 : SprintBuf = record {
      buf = b.buf + 1;
      ebuf = b.ebuf;
      cnt = b.cnt + 1;
      memory = store b.buf (c % 2 ^ 8) b.memory;
    } in
    let r = put_all-PutAll n cs b1 (omega arith) in
    rw room record {
      at = ground (arith, r.at);
      count = omega (arith, r.count);
      before = λ q h.
          r.before q (omega arith)
          ∙ store-other b.buf (c % 2 ^ 8) q b.memory (λ z. absurd (omega arith));
      behind = λ q h.
          r.behind q h ∙ store-other b.buf (c % 2 ^ 8) q b.memory (λ z. absurd (omega arith));
      text = (r.before b.buf (omega arith) ∙ store-same b.buf (c % 2 ^ 8) b.memory, r.text);
    }

Written-store :
    (n p v q : ℕ) (m : Memory) (cs : List ℕ)
    → p + stored n cs ≤ q
    → Written m p n cs
    → Written (store q v m) p n cs
Written-store zero p v q m cs h w = tt
Written-store (suc n) p v q m [] h w = tt
Written-store (suc n) p v q m (c ∷ cs) h w = (
  store-other q v p m (λ z. absurd (ground arith)) ∙ w.0,
  Written-store n (p + 1) v q m cs (ground arith) w.1,
)

-- For a buffer at an address other than 0, of at least one byte, that ends at or below 2^64, and
-- fewer than 2^31 characters, vsnprintf returns the number of all characters. The buffer holds the
-- low bytes of the first size - 1 of them, or of all if they are fewer, and a null byte behind
-- them, and no byte outside the buffer changes.
pub vsnprintf-Written :
    (str size : ℕ) (cs : List ℕ) (m : Memory)
    → 0 < str
    → 0 < size
    → str + size ≤ 2 ^ 64
    → length cs < 2 ^ 31
    → (m' : Memory) × (vsnprintf str size cs m ≡ some (length cs, m'))
      × Written m' str (size - 1) cs
      × (m' (str + stored (size - 1) cs) ≡ 0)
      × ((q : ℕ) → (q < str) ⊎ (str + size ≤ q) → m' q ≡ m q)
unfolding vsnprintf
vsnprintf-Written str size cs m pos some_room inside few =
    let last : sub64 (str + size) 1 ≡ str + size - 1 = omega arith in
    let b : SprintBuf = record { buf = str; ebuf = str + size - 1; cnt = 0; memory = m } in
    let b' = put_all cs b in
    let r = put_all-PutAll (size - 1) cs b (omega arith) in
    let total : b'.cnt ≡ length cs = omega (arith, r.count) in
    let bound : stored (size - 1) cs ≤ size - 1 = ground arith in
    (
      store b'.buf 0 b'.memory,
      rw
          (
            last,
            ne→== str 0 (λ z. absurd (omega arith)),
            le→ltb (str + size - 1) str (omega arith),
            total,
          )
          refl,
      Written-store (size - 1) str 0 b'.buf b'.memory cs (omega (arith, r.at)) r.text,
      rw r.at (store-same (str + stored (size - 1) cs) 0 b'.memory),
      λ q h.
          store-other b'.buf 0 q b'.memory (λ z. elim h [
            | inl lo ↦ absurd (omega (arith, r.at))
            | inr hi ↦ absurd (omega (arith, r.at, bound))
          ])
          ∙ elim h [ inl lo ↦ r.before q lo | inr hi ↦ r.behind q (omega arith) ],
    )
