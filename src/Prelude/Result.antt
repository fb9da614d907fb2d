-- ===== src/Prelude/Result.antt =====
-- What a C++ call does: it returns a value, it reports failure (`return false`), or its behaviour is
-- undefined (a cast to a type that the object does not have, an allocation of negative size).
use mathlib.Core.Path.{◌≡◌, refl}
use mathlib.Core.Logic.{◌⊎◌, inl, inr}

pub data Result {ℓ} (A : Type ℓ) : Type ℓ where
  fail fault : Result A
  ok : A → Result A

-- The next call is made only after a call that returned.
infixl 5 ◌>>=◌
abbrev pub ◌>>=◌ {ℓ} : {A B : Type ℓ} → Result A → (A → Result B) → Result B
fail >>= next = fail
fault >>= next = fault
ok value >>= next = next value

-- A sequence of two calls returns only if both do.
module _ {ℓ} {A B : Type ℓ} where
  pub >>=-eq-ok :
      (first : Result A) (next : A → Result B) {end : B}
      → (first >>= next) ≡ ok end
      → (value : A) × (first ≡ ok value) × (next value ≡ ok end)
  >>=-eq-ok fail next h = cc
  >>=-eq-ok fault next h = cc
  >>=-eq-ok (ok value) next h = (value, refl, h)

-- To split on the result of a call and keep the equation.
pub Result-cases {ℓ} :
    {A : Type ℓ} (r : Result A) → ((a : A) × (r ≡ ok a)) ⊎ ((r ≡ fail) ⊎ (r ≡ fault))
Result-cases fail = inr (inl refl)
Result-cases fault = inr (inr refl)
Result-cases (ok a) = inl (a, refl)
