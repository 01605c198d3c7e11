-- ===== src/Gateway/Limiter/Isolation.antt =====
-- Agents do not spend each other's tokens.
use entropy_gen.Common.{ℕ, ◌≡◌, ◌≢◌, arith}
use entropy_gen.Common.Text.{Text, text_eq_iff}
use entropy_gen.Common.Dict.{lookup, lookup-insert}
use entropy_gen.Gateway.Bucket.{Float64, allow}
use entropy_gen.Gateway.Limiter.{Limiter, bucket_of, allow_agent}

-- A request of one agent leaves the bucket of every other as it was.
pub allow_agent-others :
    {F : Type 0} (float : Float64 F) (agent other : Text) (made now : ℕ) (l : Limiter F)
    → agent ≢ other
    → lookup other (allow_agent float agent made now l).1.buckets ≡ lookup other l.buckets
unfolding allow_agent
allow_agent-others float agent other made now l ne = ground (
  arith,
  text_eq_iff agent other,
  lookup-insert agent other (allow float now (bucket_of float agent made l)).1 l.buckets,
)
