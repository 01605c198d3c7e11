-- ===== src/Operator/Controller/Conditions.antt =====
-- What setCondition does to the list of conditions.
use Prim.Native.Nat.{max}
use entropy_gen.Common.{ℕ, suc, ◌≡◌, refl, Option, none, some, List, [], ◌∷◌, arith, if◌then◌else◌}
use entropy_gen.Common.Text.{Text, text_eq, text_eq_iff}
use entropy_gen.Operator.Types.{AgentCondition}
use entropy_gen.Operator.Controller.{set_condition_in}

-- The condition of a type, the first in the list.
pub condition_of : Text → List AgentCondition → Option AgentCondition
condition_of t [] = none
condition_of t (c ∷ cs) = if text_eq c.type t then some c else condition_of t cs

pub count_of : Text → List AgentCondition → ℕ
count_of t [] = 0
count_of t (c ∷ cs) = let rest = count_of t cs in if text_eq c.type t then suc rest else rest

-- The type that is set has the new condition, and every other type keeps its own.
pub condition_of-set_condition_in :
    (new : AgentCondition) (t : Text) (cs : List AgentCondition)
    → condition_of t (set_condition_in new cs)
      ≡ (if text_eq new.type t then some new else condition_of t cs)
unfolding condition_of set_condition_in
condition_of-set_condition_in new t [] = refl
condition_of-set_condition_in new t (c ∷ cs) = ground (
  arith,
  text_eq_iff new.type t,
  text_eq_iff c.type t,
  text_eq_iff c.type new.type,
  condition_of-set_condition_in new t cs,
)

-- Of the type that is set there is one condition afterwards, or as many as before if there were
-- some; of every other type there are as many as before.
pub count_of-set_condition_in :
    (new : AgentCondition) (t : Text) (cs : List AgentCondition)
    → count_of t (set_condition_in new cs)
      ≡ (if text_eq new.type t then max 1 (count_of t cs) else count_of t cs)
unfolding count_of set_condition_in
count_of-set_condition_in new t [] = ground arith
count_of-set_condition_in new t (c ∷ cs) = ground (
  arith,
  text_eq_iff new.type t,
  text_eq_iff c.type t,
  text_eq_iff c.type new.type,
  count_of-set_condition_in new t cs,
)
