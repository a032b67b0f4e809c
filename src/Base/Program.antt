-- ===== src/Base/Program.antt =====
-- C code that reads and writes a global state: a run from a state to a value and the next state.
use mathlib.Core.Bool.{Bool}
use mathlib.Core.Path.{◌≡◌, ap, ◌∙◌}
use lab.Base.Runs.{Run, done, panicked, out_of_fuel, assert}

abbrev pub Program : Type 0 → Type 0 → Type 0
Program S A = S → Run (A × S)

infixl 5 ◌>>=◌ ◌>>◌
abbrev pub ◌>>=◌ : {S A B : Type 0} → Program S A → (A → Program S B) → Program S B
◌>>=◌ m f s = elim (m s) [ done (a, s') ↦ f a s' | panicked ↦ panicked | out_of_fuel ↦ out_of_fuel ]

abbrev pub ◌>>◌ : {S B : Type 0} → Program S (Unit {0}) → Program S B → Program S B
m >> k = m >>= λ _. k

abbrev pub pure : {S A : Type 0} → A → Program S A
pure a s = done (a, s)

-- Reading a part of the state.
abbrev pub gets : {S A : Type 0} → (S → A) → Program S A
gets f s = done (f s, s)

-- Writing the state.
abbrev pub modify : {S : Type 0} → (S → S) → Program S (Unit {0})
modify f s = done (tt, f s)

-- A function that returns nothing.
abbrev pub call : {S : Type 0} → (S → Run S) → Program S (Unit {0})
call f s = elim (f s) [ done s' ↦ done (tt, s') | panicked ↦ panicked | out_of_fuel ↦ out_of_fuel ]

-- `assert(b)`.
abbrev pub require : {S : Type 0} → Bool → Program S (Unit {0})
require b s = elim (assert b) [
  | done u ↦ done (u, s)
  | panicked ↦ panicked
  | out_of_fuel ↦ out_of_fuel
]

-- A step that is done hands its value and its state to the next one.
pub bind-done :
    {S A B : Type 0} (m : Program S A) (f : A → Program S B) {s s' : S} {a : A}
    → m s ≡ done (a, s')
    → (m >>= f) s ≡ f a s'
bind-done m f e =
    ap (λ r. elim r [ done (a, s') ↦ f a s' | panicked ↦ panicked | out_of_fuel ↦ out_of_fuel ]) e

-- What panics in the first step panics as a whole.
pub bind-panicked :
    {S A B : Type 0} (m : Program S A) (f : A → Program S B) {s : S}
    → m s ≡ panicked
    → (m >>= f) s ≡ panicked
bind-panicked m f e =
    ap (λ r. elim r [ done (a, s') ↦ f a s' | panicked ↦ panicked | out_of_fuel ↦ out_of_fuel ]) e

pub then-done :
    {S B : Type 0} (m : Program S (Unit {0})) (k : Program S B) {s s' : S} {r : Run (B × S)}
    → m s ≡ done (tt, s')
    → k s' ≡ r
    → (m >> k) s ≡ r
then-done m k e e' = bind-done m (λ _. k) e ∙ e'

pub call-done : {S : Type 0} (f : S → Run S) {s s' : S} → f s ≡ done s' → call f s ≡ done (tt, s')
call-done f e =
    ap (λ r. elim r [ done s' ↦ done (tt, s') | panicked ↦ panicked | out_of_fuel ↦ out_of_fuel ]) e
