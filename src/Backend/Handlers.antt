-- ===== src/Backend/Handlers.antt =====
-- internal/backend/handler: what the HTTP handlers answer, as a status with data or with an error.
pub mod Roles
pub mod Uploads
pub mod Auth
pub mod Users
pub mod Audit
pub mod Agents
pub mod Assign
pub mod Specs
use entropy_gen.Common.{ℕ, Option, none, some}
use entropy_gen.Common.Text.{Text}
use entropy_gen.Common.Fallible.{Error, Result, ok, err}

-- gin.H with success and data, or apiError's code, message and details.
pub data Answer (A : Type 0) : Type 0 where
  success : ℕ → A → Answer A
  failure : ℕ → Text → Text → Text → Answer A

module _ {A B : Type 0} (done : A → Answer B) (failed : Error → Answer B) where
  abbrev pub answer_of : Result A → Answer B
  answer_of (ok a) = done a
  answer_of (err e) = failed e

  -- The answer to the outcome of a call.
  unfoldable pub respond : {W : Type 0} → Result A × W → Answer B × W
  respond r = (answer_of r.0, r.1)

-- ShouldBindJSON, and what follows for a body that it accepts.
unfoldable pub with_body :
    {A B W : Type 0} → (Error → Answer B) → Result A → (A → W → Answer B × W) → W → Answer B × W
with_body failed (err e) next w = (failed e, w)
with_body failed (ok a) next w = next a w
