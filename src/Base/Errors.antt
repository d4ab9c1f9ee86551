-- ===== src/Base/Errors.antt =====
-- include/kvikio/error.hpp: what `KVIKIO_EXPECT` and `KVIKIO_FAIL` throw, as a value.
use mathlib.Core.Path.{◌≡◌, refl}
use mathlib.Core.Logic.{◌⊎◌, inl, inr}
use mathlib.Core.Bool.{Bool, true, false}

-- The class of the exception. The text of a message is not modelled.
pub data Error : Type 0 where
  cufile_exception invalid_argument runtime_error overflow_error : Error

pub data Result {ℓ} (A : Type ℓ) : Type ℓ where
  ok : A → Result A
  err : Error → Result A

-- `KVIKIO_EXPECT(condition, message, exception)`.
abbrev pub expect : Bool → Error → Result (Unit {0})
expect true e = ok tt
expect false e = err e

-- What follows runs only if nothing was thrown.
infixl 5 ◌>>=◌
abbrev pub ◌>>=◌ {ℓ ℓ'} : {A : Type ℓ} {B : Type ℓ'} → Result A → (A → Result B) → Result B
r >>= rest = elim r [ ok a ↦ rest a | err e ↦ err e ]

infixl 5 ◌>>◌
abbrev pub ◌>>◌ {ℓ} : {B : Type ℓ} → Result (Unit {0}) → Result B → Result B
r >> rest = r >>= λ _. rest

pub Result-cases {ℓ} :
    {A : Type ℓ} (r : Result A) → ((a : A) × (r ≡ ok a)) ⊎ ((e : Error) × (r ≡ err e))
Result-cases (ok a) = inl (a, refl)
Result-cases (err e) = inr (e, refl)
