-- ===== src/Common/Fallible.antt =====
-- Go's error results, and computations that change a world and may fail.
use mathlib.Core.Path.{◌≡◌, refl}
use mathlib.Core.Bool.{Bool, true, false}
use mathlib.Core.Logic.{◌⊎◌, inl, inr}
use mathlib.Core.List.{◌++◌}
use entropy_gen.Common.Text.{Text, text}

-- An `error`: one of the API server's, told apart by errors.IsNotFound, any other, or one wrapped
-- by fmt.Errorf with %w behind a text.
pub data Error : Type 0 where
  kube_not_found : Text → Error
  other : Text → Error
  wrap : Text → Error → Error

-- err.Error()
unfoldable pub message : Error → Text
message (kube_not_found t) = t
message (other t) = t
message (wrap t e) = t ++ (text ": " ++ message e)

-- errors.IsNotFound, which looks through wrapped errors.
unfoldable pub is_not_found : Error → Bool
is_not_found (kube_not_found t) = true
is_not_found (other t) = false
is_not_found (wrap t e) = is_not_found e

pub data Result {ℓ} (A : Type ℓ) : Type ℓ where
  ok : A → Result A
  err : Error → Result A

pub Result-cases {ℓ} :
    {A : Type ℓ} (r : Result A) → ((a : A) × (r ≡ ok a)) ⊎ ((e : Error) × (r ≡ err e))
Result-cases (ok a) = inl (a, refl)
Result-cases (err e) = inr (e, refl)

-- What a call gives back beside its new world.
abbrev pub Action {ℓ κ} : Type ℓ → Type κ → Type (ℓ ⊔ κ)
Action W A = W → Result A × W
