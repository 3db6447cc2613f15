-- ===== src/Limiter/Defs.antt =====
-- The types of packages/cache/src/rate-limiter-core.ts.
use urlfy_cc.Common.{ℕ, Bool, Option}

-- `RateLimitConfigLike`
pub record RateLimitConfig : Type 0 where
  pub points : ℕ
  pub duration : ℕ
  pub fail_closed : Bool

pub record RateLimitResult : Type 0 where
  pub allowed : Bool
  pub remaining : ℕ
  pub reset_time : ℕ
  pub retry_after : Option ℕ
