-- ===== src/Health.antt =====
-- The gate that keeps requests away from a failing Redis, packages/cache/src/client.ts: the record
-- `redisHealth` with the log gate's `nextRedisFailureLogAt`, and the functions that read and write
-- it. Times are in milliseconds.
pub mod Backoff
pub mod LogGate
mod Tests
use urlfy_cc.Common.{
  ℕ, ◌+◌, ◌*◌, min, max, Bool, true, false, not, Option, none, some, String, List, [], ◌∷◌, ltb,
  leb, if◌then◌else◌,
}

pub record RedisHealth : Type 0 where
  pub is_healthy : Bool
  pub is_connected : Bool
  pub is_degraded : Bool
  pub consecutive_failures : ℕ
  pub last_error : Option String
  pub last_connected_at : Option ℕ
  pub last_failure_at : Option ℕ
  pub last_successful_command_at : Option ℕ
  pub degraded_until : Option ℕ
  pub next_redis_failure_log_at : ℕ

abbrev pub initial_health : RedisHealth
initial_health = record {
  is_healthy = false;
  is_connected = false;
  is_degraded = false;
  consecutive_failures = 0;
  last_error = none;
  last_connected_at = none;
  last_failure_at = none;
  last_successful_command_at = none;
  degraded_until = none;
  next_redis_failure_log_at = 0;
}

abbrev pub lies_ahead : ℕ → Option ℕ → Bool
lies_ahead now none = false
lies_ahead now (some until) = ltb now until

-- `syncDegradedState`
unfoldable pub sync_degraded_state : ℕ → RedisHealth → RedisHealth
sync_degraded_state now h =
    if lies_ahead now h.degraded_until
    then record h { is_degraded = true }
    else record h { is_degraded = false; degraded_until = none }

-- `canAttemptRedisCommand`
unfoldable pub can_attempt_redis_command : ℕ → RedisHealth → Bool × RedisHealth
unfolding sync_degraded_state
can_attempt_redis_command now h = let h' = sync_degraded_state now h in (not h'.is_degraded, h')

-- `markRedisCommandSuccess`
unfoldable pub mark_redis_command_success : ℕ → RedisHealth → RedisHealth
unfolding sync_degraded_state
mark_redis_command_success now h = sync_degraded_state now (record h {
  is_healthy = true;
  is_connected = true;
  consecutive_failures = 0;
  last_error = none;
  last_successful_command_at = some now;
  degraded_until = none;
  next_redis_failure_log_at = 0;
})

abbrev pub redis_degraded_base_ms : ℕ
redis_degraded_base_ms = 5000

abbrev pub redis_degraded_max_ms : ℕ
redis_degraded_max_ms = 30000

-- The `backoffMs` of `markRedisCommandFailure`.
abbrev pub backoff_ms : ℕ → ℕ
backoff_ms failures = min redis_degraded_max_ms (redis_degraded_base_ms * max 1 (failures + 1))

-- `markRedisCommandFailure`, with the error's message.
unfoldable pub mark_redis_command_failure : ℕ → String → RedisHealth → RedisHealth
unfolding sync_degraded_state
mark_redis_command_failure now message h = sync_degraded_state now (record h {
  is_healthy = false;
  is_connected = false;
  consecutive_failures = h.consecutive_failures + 1;
  last_error = some message;
  last_failure_at = some now;
  degraded_until = some (now + backoff_ms h.consecutive_failures);
})

abbrev pub redis_failure_log_interval_ms : ℕ
redis_failure_log_interval_ms = 10000

-- `shouldLogRedisFailure`
unfoldable pub should_log_redis_failure : ℕ → RedisHealth → Bool × RedisHealth
should_log_redis_failure now h =
    if leb h.next_redis_failure_log_at now
    then (true, record h { next_redis_failure_log_at = now + redis_failure_log_interval_ms })
    else (false, h)

-- What one PING of `pingRedisWithRetry` comes to; any reply but PONG is an error too.
pub data PingReply : Type 0 where
  pong : PingReply
  other_reply : PingReply
  ping_error : String → PingReply

abbrev pub redis_healthcheck_retry_delays_ms : List ℕ
redis_healthcheck_retry_delays_ms = 0 ∷ 100 ∷ 250 ∷ 500 ∷ []

-- `pingRedisWithRetry` over the delays that are left: the error it throws, or `none`. `ping i`
-- is what the i-th PING yields.
pub ping_redis_with_retry : (ℕ → PingReply) → ℕ → String → List ℕ → Option String
ping_redis_with_retry ping i last_error [] = some last_error
ping_redis_with_retry ping i last_error (delay ∷ delays) =
    let again = λ (message : String). ping_redis_with_retry ping (i + 1) message delays in
    elim (ping i) [
      | pong ↦ none
      | other_reply ↦ again "Unexpected Redis PING response"
      | ping_error message ↦ again message
    ]

-- `checkRedisHealth`: the status, and the state. `finish` is the time when the pings end, and
-- `timed_out` says that the timeout of 1.5 s came first.
unfoldable pub check_redis_health :
    ℕ → ℕ → (ℕ → PingReply) → Bool → RedisHealth → Bool × RedisHealth
unfolding can_attempt_redis_command mark_redis_command_success mark_redis_command_failure
    ping_redis_with_retry
check_redis_health start finish ping timed_out h =
    let (allowed, h') = can_attempt_redis_command start h in
    if not allowed
    then (false, h')
    else (if timed_out
        then (false, mark_redis_command_failure finish "Redis health check timed out" h')
        else elim (ping_redis_with_retry ping 0 "Redis health check failed"
            redis_healthcheck_retry_delays_ms) [
              | none ↦ (true, mark_redis_command_success finish h')
              | some message ↦ (false, mark_redis_command_failure finish message h')
            ])

-- `closeRedis`: `open_client` says that a client exists, `fails` that its `close` throws, which
-- leaves the health record as it is. The `catch` closes once more; that this throws too, and rejects
-- the call, is left out.
unfoldable pub close_redis : Bool → Bool → RedisHealth → RedisHealth
close_redis open_client fails h =
    if not open_client
    then h
    else (if fails then h else record h {
      is_healthy = false;
      is_connected = false;
      is_degraded = false;
      degraded_until = none;
    })
