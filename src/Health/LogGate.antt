-- ===== src/Health/LogGate.antt =====
-- How often a Redis failure is logged: `shouldLogRedisFailure` of packages/cache/src/client.ts.
use urlfy_cc.Common.{ℕ, ◌+◌, ◌≤◌, List, [], ◌∷◌, arith, if◌then◌else◌}
use urlfy_cc.Health.{RedisHealth, should_log_redis_failure}

-- The times at which a row of calls answers that the failure is to be logged.
unfoldable pub log_times : List ℕ → RedisHealth → List ℕ
log_times [] h = []
log_times (now ∷ later) h =
    let (logs, h') = should_log_redis_failure now h in
    let rest = log_times later h' in if logs then now ∷ rest else rest

-- The first time reaches the bound, and each time is at least `d` after the one before.
abbrev pub SpacedFrom : ℕ → ℕ → List ℕ → Type 0
SpacedFrom d bound [] = Unit
SpacedFrom d bound (t ∷ ts) = (bound ≤ t) × SpacedFrom d (t + d) ts

-- Two failures that are logged lie ten seconds apart or more, in whatever order and at whatever
-- times the failures come, while no command succeeds; and none is logged before the gate opens.
pub log_times-SpacedFrom :
    (ts : List ℕ) (h : RedisHealth) → SpacedFrom 10000 h.next_redis_failure_log_at (log_times ts h)
unfolding log_times should_log_redis_failure
log_times-SpacedFrom [] h = tt
log_times-SpacedFrom (now ∷ later) h = ground (
  arith,
  log_times-SpacedFrom later (record h { next_redis_failure_log_at = now + 10000 }),
  log_times-SpacedFrom later h,
)
