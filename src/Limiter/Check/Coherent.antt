-- ===== src/Limiter/Check/Coherent.antt =====
-- The fields of a result of `checkLimit` of packages/cache/src/rate-limiter-core.ts agree.
use urlfy_cc.Common.{
  ℕ, ◌+◌, ◌*◌, ◌≤◌, ◌≡◌, refl, ◌⊎◌, ◌≢◌, ◌↔◌, true, false, none, some, String, arith, Bool-cases,
  inl, inr, not, ◌&&◌, ◌||◌,
}
use urlfy_cc.Common.Effects.{Outcome, returned, threw}
use urlfy_cc.Health.{can_attempt_redis_command}
use urlfy_cc.Limiter.Defs.{RateLimitConfig, RateLimitResult}
use urlfy_cc.Limiter.Memory.{Counters}
use urlfy_cc.Limiter.Check.{
  RedisError, Client, LimiterState, build_fallback_result, build_success_result,
  eval_sliding_window, reconnect_and_warm_redis, window_args, mark_failure, retry_or_give_up,
  evaluate_or_fall_back, after_evaluation, while_held_back, check_limit,
  is_retryable_connection_error,
}

module _ {W : Type 0} (client : Client W) (key : String) (config : RateLimitConfig)
    (prefix : String) (now : ℕ) (member : String) (P : RateLimitResult → Type 0)
    (of_fallback : (m : Counters) → P (build_fallback_result key config prefix now m).0)
    (of_reply : (reply : ℕ × ℕ) → P (build_success_result config now reply)) where
  retry-result :
      (out : Outcome RedisError (ℕ × ℕ) × LimiterState W)
      → P (retry_or_give_up client key config prefix now member out).0
  retry-result (returned reply, s) = of_reply reply
  retry-result (threw e, s) = of_fallback s.memory

  evaluate-result :
      (out : Outcome RedisError (ℕ × ℕ) × LimiterState W)
      → P (evaluate_or_fall_back client key config prefix now member out).0
  evaluate-result (returned reply, s) = of_reply reply
  evaluate-result (threw e, s) = of_fallback s.memory

  after-result :
      (out : Outcome RedisError (ℕ × ℕ) × LimiterState W)
      → P (after_evaluation client key config prefix now member out).0
  unfolding after_evaluation
  after-result (returned reply, s) = of_reply reply
  after-result (threw e, s) =
      let warm =
        reconnect_and_warm_redis client now
          (mark_failure client key config prefix now member e s) in
      elim (Bool-cases (not client.is_override && is_retryable_connection_error e)) [
        | inr final ↦ rw final (of_fallback s.memory)
        | inl again ↦ rw again (elim (Bool-cases warm.0) [
          | inl is_warm ↦ rw is_warm (
              retry-result (
                eval_sliding_window client (window_args client key config prefix now member)
                  warm.1))
          | inr cold ↦ rw cold (of_fallback (warm.1).memory)
        ])
      ]

  held_back-result :
      (s : LimiterState W) → P (while_held_back client key config prefix now member s).0
  unfolding while_held_back
  held_back-result s =
      let warm = reconnect_and_warm_redis client now s in
      elim (Bool-cases (not config.fail_closed || client.is_override)) [
        | inl plain ↦ rw plain (of_fallback s.memory)
        | inr again ↦ rw again (elim (Bool-cases warm.0) [
          | inl is_warm ↦ rw is_warm (
              evaluate-result (
                eval_sliding_window client (window_args client key config prefix now member)
                  warm.1))
          | inr cold ↦ rw cold (of_fallback (warm.1).memory)
        ])
      ]

  -- What holds of every fallback and of every answer of Redis holds of the result.
  check_limit-result :
      (s : LimiterState W) → P (check_limit client key config prefix now member s).0
  unfolding check_limit
  check_limit-result s =
      let gate = can_attempt_redis_command now s.health in
      let s' = record s { health = gate.1 } in
      elim (Bool-cases gate.0) [
        | inl allowed ↦ rw allowed (
            after-result
              (eval_sliding_window client (window_args client key config prefix now member) s'))
        | inr held ↦ rw held (held_back-result s')
      ]

-- A time to wait is named exactly when the request is refused, and it is the window's length, or a
-- minute where a limit that fails closed has no answer; no more is said to remain than the limit
-- allows; and the reset lies a window ahead, or that minute.
pub record IsCoherent (config : RateLimitConfig) (now : ℕ) (r : RateLimitResult) : Type 0 where
  pub wait_iff : (r.allowed ≡ false) ↔ (r.retry_after ≢ none)
  pub wait_time : (d : ℕ) → r.retry_after ≡ some d → r.reset_time ≡ now + d * 1000
  pub remaining_le : r.remaining ≤ config.points
  pub reset_ahead :
      (r.reset_time ≡ now + config.duration * 1000)
      ⊎ ((config.fail_closed ≡ true) × (r.allowed ≡ false) × (r.reset_time ≡ now + 60000))

fallback-IsCoherent :
    (key : String) (config : RateLimitConfig) (prefix : String) (now : ℕ) (m : Counters)
    → IsCoherent config now (build_fallback_result key config prefix now m).0
unfolding build_fallback_result
fallback-IsCoherent key config prefix now m = record {
  wait_iff = ground arith;
  wait_time = λ d h. ground arith;
  remaining_le = ground arith;
  reset_ahead = elim (Bool-cases config.fail_closed) [
    | inl closed ↦ rw closed (inr (refl, refl, refl))
    | inr open_ ↦ rw open_ (inl refl)
  ];
}

reply-IsCoherent :
    (config : RateLimitConfig) (now : ℕ) (reply : ℕ × ℕ)
    → IsCoherent config now (build_success_result config now reply)
reply-IsCoherent config now (allowed, count) = record {
  wait_iff = ground arith;
  wait_time = λ d h. ground arith;
  remaining_le = ground arith;
  reset_ahead = inl refl;
}

-- Every result of `checkLimit`, from Redis or from a fallback, is coherent: it names a time to wait
-- exactly when it refuses the request, and then the reset time is that time from now; the reset time
-- of any result is a window from now, or, for a refusal of a limit that fails closed, a minute; and no
-- more than the limit is said to remain.
pub check_limit-IsCoherent :
    {W : Type 0} (client : Client W) (key : String) (config : RateLimitConfig) (prefix : String)
    (now : ℕ) (member : String) (s : LimiterState W)
    → IsCoherent config now (check_limit client key config prefix now member s).0
check_limit-IsCoherent client key config prefix now member =
    check_limit-result client key config prefix now member (IsCoherent config now)
      (fallback-IsCoherent key config prefix now) (reply-IsCoherent config now)
