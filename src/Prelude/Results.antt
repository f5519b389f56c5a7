-- ===== src/Prelude/Results.antt =====
-- `Result<A, E>` and the `?` operator.
use mathlib.Core.Path.{◌≡◌, refl}
use mathlib.Core.Logic.{◌⊎◌, inl, inr}
use mathlib.Core.Option.{Option, none, some}

pub data Result {ℓ} (E : Type 0) (A : Type ℓ) : Type ℓ where
  ok : A → Result E A
  err : E → Result E A

infixl 5 ◌>>=◌ ◌>>◌
-- `r?` and what follows it.
abbrev pub ◌>>=◌ {κ ℓ} :
    {E : Type 0} {S : Type κ} {T : Type ℓ} → Result E S → (S → Result E T) → Result E T
err problem >>= next = err problem
ok value >>= next = next value

-- `r?;` where the value is not used.
abbrev pub ◌>>◌ {κ} : {E : Type 0} {T : Type κ} → Result E (Unit {0}) → Result E T → Result E T
checked >> next = checked >>= λ done. next

module _ {ℓ} {E : Type 0} {A : Type ℓ} where
  -- `Option::ok_or`
  abbrev pub ok_or : Option A → E → Result E A
  ok_or none e = err e
  ok_or (some a) e = ok a

  pub Result-cases : (r : Result E A) → ((a : A) × (r ≡ ok a)) ⊎ ((e : E) × (r ≡ err e))
  Result-cases (ok a) = inl (a, refl)
  Result-cases (err e) = inr (e, refl)

-- `Result::map_err`
abbrev pub map_err {ℓ} : {E F : Type 0} {A : Type ℓ} → (E → F) → Result E A → Result F A
map_err f (ok a) = ok a
map_err f (err e) = err (f e)

-- A sequence that succeeds has passed its first step.
pub >>-eq-ok {ℓ} :
    {E : Type 0} {S : Type ℓ} (first : Result E (Unit {0})) (rest : Result E S) {s : S}
    → (first >> rest) ≡ ok s
    → (first ≡ ok tt) × (rest ≡ ok s)
>>-eq-ok (err problem) rest done = cc
>>-eq-ok (ok passed) rest done = (refl, done)
