-- ===== src/Gateway/Bucket.antt =====
-- The token bucket of internal/gateway/ratelimit/token_bucket.go. The arithmetic of float64 is a
-- parameter. Times are nanoseconds of a clock that does not go back.
use entropy_gen.Common.{ℕ, ◌-◌, Bool, true, false, if◌then◌else◌}

-- What the code does with float64: the conversion of an int, Duration.Seconds, and four operations
-- and one comparison, with the rounding that they have.
pub record Float64 (F : Type 0) : Type 0 where
  pub of_int : ℕ → F
  pub seconds : ℕ → F
  pub add : F → F → F
  pub sub : F → F → F
  pub mul : F → F → F
  pub div : F → F → F
  pub less : F → F → Bool

pub record Bucket (F : Type 0) : Type 0 where
  pub tokens : F
  pub max_tokens : F
  pub refill_per_sec : F
  pub last_refill : ℕ

module _ {F : Type 0} (float : Float64 F) where
  unfoldable pub new_bucket : ℕ → ℕ → ℕ → Bucket F
  new_bucket rpm burst now = record {
    tokens = float.of_int burst;
    max_tokens = float.of_int burst;
    refill_per_sec = float.div (float.of_int rpm) (float.of_int 60);
    last_refill = now;
  }

  -- The bucket after the refill, before a token is taken.
  unfoldable pub refilled : ℕ → Bucket F → Bucket F
  refilled now b =
      let elapsed = float.seconds (now - b.last_refill) in
      let tokens = float.add b.tokens (float.mul elapsed b.refill_per_sec) in
      record b {
        tokens = if float.less b.max_tokens tokens then b.max_tokens else tokens;
        last_refill = now;
      }

  unfoldable pub allow : ℕ → Bucket F → Bool × Bucket F
  unfolding refilled
  allow now b =
      let r = refilled now b in
      if float.less r.tokens (float.of_int 1)
      then (false, r)
      else (true, record r { tokens = float.sub r.tokens (float.of_int 1) })

unfoldable pub last_active : {F : Type 0} → Bucket F → ℕ
last_active b = b.last_refill
