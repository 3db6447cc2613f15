-- ===== src/Limiter/Check.antt =====
-- `checkLimit` of packages/cache/src/rate-limiter-core.ts: the sliding window while Redis answers,
-- and a refusal or the memory limiter while it does not. One time `now` stands for the readings of
-- the clock during a call, one member for both tries, and a health check does not move the world. That
-- a client fails to close twice, which rejects the call, is left out.
pub mod Closed
pub mod Coherent
use urlfy_cc.Common.{
  ℕ, ◌+◌, ◌-◌, ◌*◌, Bool, true, false, Option, none, some, String, if◌then◌else◌, not, ◌&&◌, ◌||◌,
  ◌==◌,
}
use Prim.Native.String.{◌++◌}
use urlfy_cc.Common.Effects.{Outcome, returned, threw, Eff, bind_outcome}
use urlfy_cc.Health.{
  RedisHealth, PingReply, can_attempt_redis_command, mark_redis_command_success,
  mark_redis_command_failure, should_log_redis_failure, check_redis_health, close_redis,
}
use urlfy_cc.Limiter.Defs.{RateLimitConfig, RateLimitResult}
use urlfy_cc.Limiter.Memory.{Counters, check, Verdict}

-- The errors of a Redis command, by the tests that the code makes on their messages.
pub data RedisError : Type 0 where
  no_script connection_closed offline_queue_disabled : RedisError
  other_error : String → RedisError

abbrev pub message : RedisError → String
message no_script = "NOSCRIPT"
message connection_closed = "Connection is closed"
message offline_queue_disabled = "offline queue is disabled"
message (other_error m) = m

-- `isRetryableConnectionError`
abbrev pub is_retryable_connection_error : RedisError → Bool
is_retryable_connection_error connection_closed = true
is_retryable_connection_error offline_queue_disabled = true
is_retryable_connection_error _ = false

-- The arguments of the script.
pub record WindowArgs : Type 0 where
  pub redis_key : String
  pub window_start : ℕ
  pub now : ℕ
  pub max_points : ℕ
  pub ttl : ℕ
  pub member : String

-- The Redis client of a limiter, over a world that it moves; `timed_out` and `ping` are what a
-- health check meets, `has_client` and `close_fails` what closing the client meets.
pub record Client (W : Type 0) : Type 0 where
  pub evalsha : String → WindowArgs → Eff W RedisError (ℕ × ℕ)
  pub script_load : Eff W RedisError String
  pub ping : W → ℕ → PingReply
  pub timed_out : W → Bool
  pub has_client : W → Bool
  pub close_fails : W → Bool
  pub is_override : Bool

pub record LimiterState (W : Type 0) : Type 0 where
  pub health : RedisHealth
  pub memory : Counters
  pub script_sha : Option String
  pub world : W

-- `buildFallbackResult`
unfoldable pub build_fallback_result :
    String → RateLimitConfig → String → ℕ → Counters → RateLimitResult × Counters
build_fallback_result key config prefix now memory =
    if config.fail_closed
    then (
      record { allowed = false; remaining = 0; reset_time = now + 60000; retry_after = some 60 },
      memory,
    )
    else (let (v, memory') =
          check (prefix ++ ":" ++ key) config.points (config.duration * 1000) now memory in
        (
          record {
            allowed = v.allowed;
            remaining = config.points - v.count;
            reset_time = now + config.duration * 1000;
            retry_after = if v.allowed then none else some config.duration;
          },
          memory',
        ))

-- `buildSuccessResult`
abbrev pub build_success_result : RateLimitConfig → ℕ → ℕ × ℕ → RateLimitResult
build_success_result config now (allowed, count) = record {
  allowed = allowed == 1;
  remaining = config.points - count;
  reset_time = now + config.duration * 1000;
  retry_after = if allowed == 1 then none else some config.duration;
}

module _ {W : Type 0} (client : Client W) where
  open client use {evalsha, script_load, ping, timed_out, has_client, close_fails, is_override}

  -- A call of the client moves the world and nothing else.
  abbrev pub on_world : {A : Type 0} → Eff W RedisError A → Eff (LimiterState W) RedisError A
  on_world m s = let (r, w) = m s.world in (r, record s { world = w })

  abbrev pub load_and_run : WindowArgs → Eff (LimiterState W) RedisError (ℕ × ℕ)
  load_and_run args s =
      bind_outcome (on_world script_load s)
        (λ sha s'. on_world (evalsha sha args) (record s' { script_sha = some sha }))

  -- The `catch` round the first EVALSHA.
  abbrev pub reload_on_no_script :
      WindowArgs
      → Outcome RedisError (ℕ × ℕ) × LimiterState W
      → Outcome RedisError (ℕ × ℕ) × LimiterState W
  reload_on_no_script args (returned a, s) = (returned a, s)
  reload_on_no_script args (threw no_script, s) = load_and_run args (record s { script_sha = none })
  reload_on_no_script args (threw e, s) = (threw e, s)

  -- `evalSlidingWindow`
  unfoldable pub eval_sliding_window : WindowArgs → Eff (LimiterState W) RedisError (ℕ × ℕ)
  eval_sliding_window args s = elim s.script_sha [
    | none ↦ load_and_run args s
    | some sha ↦ reload_on_no_script args (on_world (evalsha sha args) s)
  ]

  -- `reconnectAndWarmRedis`: whether Redis answers again.
  unfoldable pub reconnect_and_warm_redis : ℕ → LimiterState W → Bool × LimiterState W
  reconnect_and_warm_redis now s =
      let closed = close_redis (has_client s.world) (close_fails s.world) s.health in
      let (ok, health) = check_redis_health now now (ping s.world) (timed_out s.world) closed in
      (ok, record s { health = health })

  module _ (key : String) (config : RateLimitConfig) (prefix : String) (now : ℕ)
      (member : String) where
    abbrev pub window_args : WindowArgs
    window_args = record {
      redis_key = prefix ++ ":" ++ key;
      window_start = now - config.duration * 1000;
      now = now;
      max_points = config.points;
      ttl = config.duration;
      member = member;
    }

    abbrev pub fall_back : LimiterState W → RateLimitResult × LimiterState W
    fall_back s =
        let (result, memory) = build_fallback_result key config prefix now s.memory in
        (result, record s { memory = memory })

    abbrev pub succeed : ℕ × ℕ → LimiterState W → RateLimitResult × LimiterState W
    succeed reply s = (
      build_success_result config now reply,
      record s { health = mark_redis_command_success now s.health },
    )

    abbrev pub mark_failure : RedisError → LimiterState W → LimiterState W
    mark_failure e s = record s { health = mark_redis_command_failure now (message e) s.health }

    -- An evaluation whose failure is marked and answered by the fallback.
    abbrev pub evaluate_or_fall_back :
        Outcome RedisError (ℕ × ℕ) × LimiterState W → RateLimitResult × LimiterState W
    evaluate_or_fall_back (returned reply, s) = succeed reply s
    evaluate_or_fall_back (threw e, s) = fall_back (mark_failure e s)

    -- The end of the last `catch`: the failure is marked, and the log gate is asked.
    abbrev pub give_up : RedisError → LimiterState W → RateLimitResult × LimiterState W
    give_up e s =
        let failed = mark_failure e s in
        fall_back (record failed { health = (should_log_redis_failure now failed.health).1 })

    abbrev pub retry_or_give_up :
        Outcome RedisError (ℕ × ℕ) × LimiterState W → RateLimitResult × LimiterState W
    retry_or_give_up (returned reply, s) = succeed reply s
    retry_or_give_up (threw e, s) = give_up e s

    -- The first evaluation, when commands are let through.
    unfoldable pub after_evaluation :
        Outcome RedisError (ℕ × ℕ) × LimiterState W → RateLimitResult × LimiterState W
    after_evaluation (returned reply, s) = succeed reply s
    after_evaluation (threw e, s) =
        if not is_override && is_retryable_connection_error e
        then (let (warmed, s') = reconnect_and_warm_redis now (mark_failure e s) in
            if warmed then retry_or_give_up (eval_sliding_window window_args s') else fall_back s')
        else give_up e s

    -- The degraded branch.
    unfoldable pub while_held_back : LimiterState W → RateLimitResult × LimiterState W
    while_held_back s =
        if not config.fail_closed || is_override
        then fall_back s
        else (let (warmed, s') = reconnect_and_warm_redis now s in
            if warmed
            then evaluate_or_fall_back (eval_sliding_window window_args s')
            else fall_back s')

    -- `checkLimit`
    unfoldable pub check_limit : LimiterState W → RateLimitResult × LimiterState W
    check_limit s =
        let (allowed, health) = can_attempt_redis_command now s.health in
        let s' = record s { health = health } in
        if allowed
        then after_evaluation (eval_sliding_window window_args s')
        else while_held_back s'
