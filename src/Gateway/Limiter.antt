-- ===== src/Gateway/Limiter.antt =====
-- The Limiter of internal/gateway/ratelimit/token_bucket.go: a bucket for each agent.
pub mod Isolation
use entropy_gen.Common.{
  ℕ, ◌+◌, Bool, true, false, Option, none, some, List, [], ◌∷◌, if◌then◌else◌, ltb,
}
use entropy_gen.Common.Text.{Text, text, is_empty}
use entropy_gen.Common.Dict.{Dict, lookup, insert}
use entropy_gen.Gateway.Bucket.{Float64, Bucket, new_bucket, allow, last_active}

pub record Limiter (F : Type 0) : Type 0 where
  pub buckets : Dict (Bucket F)
  pub rpm : ℕ
  pub burst : ℕ

unfoldable pub new_limiter : {F : Type 0} → ℕ → ℕ → Limiter F
new_limiter rpm burst = record { buckets = []; rpm = rpm; burst = burst }

abbrev agent_or_unknown : Text → Text
agent_or_unknown agent = if is_empty agent then text "_unknown_" else agent

module _ {F : Type 0} (float : Float64 F) where
  -- LoadOrStore: the agent's bucket, or a new one made at the time `made`.
  unfoldable pub bucket_of : Text → ℕ → Limiter F → Bucket F
  bucket_of agent made l = elim (lookup agent l.buckets) [
    | some b ↦ b
    | none ↦ new_bucket float l.rpm l.burst made
  ]

  -- `made` and `now` are the clock's two readings, in that order.
  unfoldable pub allow_agent : Text → ℕ → ℕ → Limiter F → Bool × Limiter F
  allow_agent agent made now l =
      let (passed, b) = allow float now (bucket_of agent made l) in
      (passed, record l { buckets = insert agent b l.buckets })

  -- Wrap: 429 for an agent above its limit, or else what the next handler does.
  unfoldable pub wrap_limit : {A : Type 0} → (ℕ → A) → A → Text → ℕ → ℕ → Limiter F → A × Limiter F
  unfolding allow_agent
  wrap_limit refuse next agent made now l =
      let (passed, l') = allow_agent (agent_or_unknown agent) made now l in
      (if passed then next else refuse 429, l')

abbrev pub idle_limit : ℕ
idle_limit = 300000000000

-- One round of cleanupLoop: buckets that were last active before `now` less five minutes go.
unfoldable pub keep_active : {F : Type 0} → ℕ → Dict (Bucket F) → Dict (Bucket F)
keep_active now [] = []
keep_active now ((agent, b) ∷ m) =
    let rest = keep_active now m in
    if ltb (last_active b + idle_limit) now then rest else (agent, b) ∷ rest

unfoldable pub cleanup : {F : Type 0} → ℕ → Limiter F → Limiter F
unfolding keep_active
cleanup now l = record l { buckets = keep_active now l.buckets }
