-- ===== src/Limiter/Check/Closed.antt =====
-- A limit that fails closed: `checkLimit` of packages/cache/src/rate-limiter-core.ts lets nothing
-- through unless Redis says so.
use urlfy_cc.Common.{
  ◌⊎◌, ℕ, ◌≡◌, refl, true, Option, none, some, String, arith, Bool-cases, inl, inr, not, ◌&&◌, ◌||◌,
  subst,
}
use urlfy_cc.Health.{can_attempt_redis_command, should_log_redis_failure}
use urlfy_cc.Common.Effects.{Outcome, returned, threw, bind_outcome}
use urlfy_cc.Limiter.Defs.{RateLimitConfig, RateLimitResult}
use urlfy_cc.Limiter.Check.{
  RedisError, no_script, connection_closed, offline_queue_disabled, other_error, WindowArgs, Client,
  LimiterState, build_fallback_result, eval_sliding_window, reconnect_and_warm_redis,
  reload_on_no_script, load_and_run, window_args, fall_back, succeed, retry_or_give_up,
  evaluate_or_fall_back, after_evaluation, while_held_back, check_limit, on_world, mark_failure,
  is_retryable_connection_error,
}

module _ {W : Type 0} (client : Client W) (known : Option String) where
  -- The hash of the script: the one that was known, or one that Redis gave when it loaded the script.
  abbrev pub IsScript : String → Type 0
  IsScript sha = (known ≡ some sha) ⊎ ((w : W) × ((client.script_load w).0 ≡ returned sha))

  -- Redis ran the script for these arguments and gave this answer.
  abbrev pub Answers : WindowArgs → ℕ × ℕ → Type 0
  Answers args reply =
      (sha : String) × IsScript sha × ((w : W) × ((client.evalsha sha args w).0 ≡ returned reply))

  load_and_run-Answers :
      (args : WindowArgs) (loaded : Outcome RedisError String × LimiterState W) (reply : ℕ × ℕ)
      → ((sha : String) → loaded.0 ≡ returned sha → IsScript sha)
      → (bind_outcome loaded (λ sha s'.
          on_world client (client.evalsha sha args) (record s' { script_sha = some sha }))).0
        ≡ returned reply
      → Answers args reply
  load_and_run-Answers args (returned sha, s) reply h e = (sha, h sha refl, (s.world, e))
  load_and_run-Answers args (threw _, s) reply h e = cc

  reload-Answers :
      (args : WindowArgs) (first : Outcome RedisError (ℕ × ℕ) × LimiterState W) (reply : ℕ × ℕ)
      → (first.0 ≡ returned reply → Answers args reply)
      → (reload_on_no_script client args first).0 ≡ returned reply
      → Answers args reply
  reload-Answers args (returned a, s) reply h e = h e
  reload-Answers args (threw no_script, s) reply h e =
      load_and_run-Answers args
        (on_world client client.script_load (record s { script_sha = none })) reply
        (λ sha got. inr (s.world, got)) e
  reload-Answers args (threw _, s) reply h e = cc

  eval-Answers :
      (args : WindowArgs) (s : LimiterState W) (sha : Option String) (reply : ℕ × ℕ)
      → s.script_sha ≡ sha
      → ((h : String) → sha ≡ some h → IsScript h)
      → (eval_sliding_window client args s).0 ≡ returned reply
      → Answers args reply
  unfolding eval_sliding_window
  eval-Answers args s none reply same h e =
      load_and_run-Answers args (on_world client client.script_load s) reply
        (λ sha got. inr (s.world, got)) (rw (same, eval_sliding_window) at e)
  eval-Answers args s (some sha) reply same h e =
      reload-Answers args (on_world client (client.evalsha sha args) s) reply
        (λ got. (sha, h sha refl, (s.world, got))) (rw (same, eval_sliding_window) at e)

  -- A state that remembers no hash but that of the script.
  abbrev Remembers : LimiterState W → Type 0
  Remembers s = (sha : String) → s.script_sha ≡ some sha → IsScript sha

  loaded-Remembers :
      (args : WindowArgs) (loaded : Outcome RedisError String × LimiterState W)
      → ((sha : String) → loaded.0 ≡ returned sha → IsScript sha)
      → Remembers loaded.1
      → Remembers
          (bind_outcome loaded (λ sha s'.
            on_world client (client.evalsha sha args) (record s' { script_sha = some sha }))).1
  loaded-Remembers args (returned sha, s) h ok =
      λ other e. subst IsScript (some_injective e) (h sha refl)
    where
      some_injective : {a b : String} → some a ≡ some b → a ≡ b
      some_injective e = cc
  loaded-Remembers args (threw e, s) h ok = ok

  reload-Remembers :
      (args : WindowArgs) (first : Outcome RedisError (ℕ × ℕ) × LimiterState W)
      → Remembers first.1
      → Remembers (reload_on_no_script client args first).1
  reload-Remembers args (returned a, s) ok = ok
  reload-Remembers args (threw no_script, s) ok =
      loaded-Remembers args (on_world client client.script_load (record s { script_sha = none }))
        (λ sha got. inr (s.world, got)) (λ sha e. cc)
  reload-Remembers args (threw connection_closed, s) ok = ok
  reload-Remembers args (threw offline_queue_disabled, s) ok = ok
  reload-Remembers args (threw (other_error m), s) ok = ok

  run-Remembers :
      (args : WindowArgs) (s : LimiterState W) (sha : Option String)
      → Remembers s
      → Remembers
          (elim sha as (λ x. Outcome RedisError (ℕ × ℕ) × LimiterState W) [
            | none ↦ load_and_run client args s
            | some h ↦ reload_on_no_script client args (on_world client (client.evalsha h args) s)
          ]).1
  run-Remembers args s none ok =
      loaded-Remembers args (on_world client client.script_load s) (λ sha got. inr (s.world, got))
        ok
  run-Remembers args s (some sha) ok =
      reload-Remembers args (on_world client (client.evalsha sha args) s) ok

  eval-Remembers :
      (args : WindowArgs) (s : LimiterState W)
      → Remembers s
      → Remembers (eval_sliding_window client args s).1
  unfolding eval_sliding_window
  eval-Remembers args s ok = run-Remembers args s s.script_sha ok

module _ {W : Type 0} (client : Client W) (key : String) (config : RateLimitConfig)
    (prefix : String) (now : ℕ) (member : String) (closed : config.fail_closed ≡ true)
    (known : Option String) where
  abbrev args : WindowArgs
  args = window_args client key config prefix now member

  -- A result that lets the request through rests on an answer of Redis.
  abbrev IsBacked : RateLimitResult × LimiterState W → Type 0
  IsBacked r = (r.0).allowed ≡ true → (count : ℕ) × Answers client known args (1, count)

  abbrev IsTrue : Outcome RedisError (ℕ × ℕ) × LimiterState W → Type 0
  IsTrue out = (reply : ℕ × ℕ) → out.0 ≡ returned reply → Answers client known args reply

  fall_back-IsBacked :
      (s : LimiterState W) → IsBacked (fall_back client key config prefix now member s)
  unfolding build_fallback_result
  fall_back-IsBacked s h = absurd (ground arith)

  succeed-IsBacked :
      (reply : ℕ × ℕ) (s : LimiterState W)
      → Answers client known args reply
      → IsBacked (succeed client key config prefix now member reply s)
  succeed-IsBacked (allowed, count) s a h =
      let one : allowed ≡ 1 = ground arith in
      (count, subst (λ n. Answers client known args (n, count)) one a)

  retry-IsBacked :
      (out : Outcome RedisError (ℕ × ℕ) × LimiterState W)
      → IsTrue out
      → IsBacked (retry_or_give_up client key config prefix now member out)
  retry-IsBacked (returned reply, s) true_out = succeed-IsBacked reply s (true_out reply refl)
  retry-IsBacked (threw e, s) true_out = fall_back-IsBacked (
      let failed = mark_failure client key config prefix now member e s in
      record failed { health = (should_log_redis_failure now failed.health).1 })

  evaluate-IsBacked :
      (out : Outcome RedisError (ℕ × ℕ) × LimiterState W)
      → IsTrue out
      → IsBacked (evaluate_or_fall_back client key config prefix now member out)
  evaluate-IsBacked (returned reply, s) true_out = succeed-IsBacked reply s (true_out reply refl)
  evaluate-IsBacked (threw e, s) true_out =
      fall_back-IsBacked (mark_failure client key config prefix now member e s)

  evaluated :
      (s : LimiterState W) → Remembers client known s → IsTrue (eval_sliding_window client args s)
  evaluated s ok reply e = eval-Answers client known args s s.script_sha reply refl ok e

  -- A state after a failure, once Redis was asked again.
  warm-Remembers :
      (s : LimiterState W)
      → Remembers client known s
      → Remembers client known (reconnect_and_warm_redis client now s).1
  unfolding reconnect_and_warm_redis
  warm-Remembers s ok = ok

  after-IsBacked :
      (out : Outcome RedisError (ℕ × ℕ) × LimiterState W)
      → IsTrue out
      → Remembers client known out.1
      → IsBacked (after_evaluation client key config prefix now member out)
  unfolding after_evaluation
  after-IsBacked (returned reply, s) true_out ok = succeed-IsBacked reply s (true_out reply refl)
  after-IsBacked (threw e, s) true_out ok =
      let warm =
        reconnect_and_warm_redis client now
          (mark_failure client key config prefix now member e s) in
      elim (Bool-cases (not client.is_override && is_retryable_connection_error e)) [
        | inr final ↦ rw final (
            fall_back-IsBacked (
              let failed = mark_failure client key config prefix now member e s in
              record failed { health = (should_log_redis_failure now failed.health).1 }))
        | inl again ↦ rw again (elim (Bool-cases warm.0) [
          | inl yes_warm ↦ rw yes_warm (
              retry-IsBacked (eval_sliding_window client args warm.1) (
                evaluated warm.1
                  (warm-Remembers (mark_failure client key config prefix now member e s) ok)))
          | inr cold ↦ rw cold (fall_back-IsBacked warm.1)
        ])
      ]

  held_back-IsBacked :
      (s : LimiterState W)
      → Remembers client known s
      → IsBacked (while_held_back client key config prefix now member s)
  unfolding while_held_back
  held_back-IsBacked s ok =
      let warm = reconnect_and_warm_redis client now s in
      elim (Bool-cases (not config.fail_closed || client.is_override)) [
        | inl plain ↦ rw plain (fall_back-IsBacked s)
        | inr try_again ↦ rw try_again (elim (Bool-cases warm.0) [
          | inl yes_warm ↦ rw yes_warm (
              evaluate-IsBacked (eval_sliding_window client args warm.1)
                (evaluated warm.1 (warm-Remembers s ok)))
          | inr cold ↦ rw cold (fall_back-IsBacked warm.1)
        ])
      ]

  -- What lets a request through while Redis is held back is a health check that Redis passes.
  held_back-warm :
      (s : LimiterState W)
      → (while_held_back client key config prefix now member s).0.allowed ≡ true
      → (reconnect_and_warm_redis client now s).0 ≡ true
  unfolding while_held_back build_fallback_result
  held_back-warm s h = elim (Bool-cases (reconnect_and_warm_redis client now s).0) [
    | inl warm ↦ warm
    | inr cold ↦ absurd (ground (arith, h, cold, closed))
  ]

module _ {W : Type 0} (client : Client W) (key : String) (config : RateLimitConfig)
    (prefix : String) (now : ℕ) (member : String) (closed : config.fail_closed ≡ true) where
  -- A limit that fails closed lets a request through only if Redis ran the script with the request's
  -- arguments and answered 1, never on the word of the memory limiter: what was run is the script, by
  -- the hash that the limiter remembered or that Redis gave when it loaded the script. While Redis is
  -- held back, a request is let through only if a health check finds that Redis answers again.
  pub check_limit_closed :
      (s : LimiterState W)
      → (check_limit client key config prefix now member s).0.allowed ≡ true
      → ((count : ℕ) × Answers client s.script_sha
            (window_args client key config prefix now member)
            (1, count))
        × (((can_attempt_redis_command now s.health).0 ≡ true)
            ⊎ ((reconnect_and_warm_redis client now
                  (record s { health = (can_attempt_redis_command now s.health).1 })).0
                ≡ true))
  unfolding check_limit
  check_limit_closed s =
      let gate = can_attempt_redis_command now s.health in
      let s' = record s { health = gate.1 } in
      let known = s.script_sha in
      let arguments = window_args client key config prefix now member in
      let first = eval_sliding_window client arguments s' in
      elim (Bool-cases gate.0) [
        | inl allowed ↦ rw allowed (λ h. (
          after-IsBacked client key config prefix now member closed known first
              (evaluated client key config prefix now member closed known s' (λ sha e. inl e))
              (eval-Remembers client known arguments s' (λ sha e. inl e)) h,
          inl refl,
        ))
        | inr held ↦ rw held (λ h. (
          held_back-IsBacked client key config prefix now member closed known s' (λ sha e. inl e) h,
          inr (held_back-warm client key config prefix now member closed known s' h),
        ))
      ]
