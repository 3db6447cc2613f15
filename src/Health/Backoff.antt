-- ===== src/Health/Backoff.antt =====
-- When the gate of packages/cache/src/client.ts lets commands through.
use urlfy_cc.Common.{
  ℕ, suc, ◌+◌, ◌*◌, ◌<◌, min, ◌≡◌, ◌↔◌, ◌⊎◌, Bool, true, false, String, List, [], ◌∷◌, length,
  arith,
}
use urlfy_cc.Health.{
  RedisHealth, pong, can_attempt_redis_command, mark_redis_command_failure, PingReply,
  check_redis_health,
}

-- A list of failures, each with its time, and none with a success between them.
pub fail_all : List (ℕ × String) → RedisHealth → RedisHealth
fail_all [] h = h
fail_all ((now, message) ∷ fs) h = fail_all fs (mark_redis_command_failure now message h)

consecutive_failures-fail_all :
    (fs : List (ℕ × String)) (h : RedisHealth)
    → (fail_all fs h).consecutive_failures ≡ h.consecutive_failures + length fs
unfolding fail_all mark_redis_command_failure
consecutive_failures-fail_all [] h = omega arith
consecutive_failures-fail_all ((now, message) ∷ fs) h =
    ground (arith, consecutive_failures-fail_all fs (mark_redis_command_failure now message h))

can_attempt-mark_failure :
    (t now : ℕ) (message : String) (h : RedisHealth)
    → ((can_attempt_redis_command now (mark_redis_command_failure t message h)).0 ≡ false)
      ↔ (now < t + min 30000 (5000 * (h.consecutive_failures + 1)))
unfolding can_attempt_redis_command mark_redis_command_failure
can_attempt-mark_failure t now message h = ground arith

-- After some failures in a row and one more at the time `t`, commands are held back exactly until
-- `t` plus five seconds for each failure in the row, and thirty seconds at most.
pub held_back_iff :
    (fs : List (ℕ × String)) (t now : ℕ) (message : String) (h : RedisHealth)
    → h.consecutive_failures ≡ 0
    → ((can_attempt_redis_command now (mark_redis_command_failure t message (fail_all fs h))).0
        ≡ false)
      ↔ (now < t + min 30000 (5000 * suc (length fs)))
held_back_iff fs t now message h fresh = ground (
  arith,
  can_attempt-mark_failure t now message (fail_all fs h),
  consecutive_failures-fail_all fs h,
)

-- A health check says "ok" exactly when commands are let through, the timeout does not come first
-- and one of the four pings is answered.
pub check_redis_health-ok_iff :
    (start finish : ℕ) (ping : ℕ → PingReply) (timed_out : Bool) (h : RedisHealth)
    → ((check_redis_health start finish ping timed_out h).0 ≡ true) ↔ (
        ((can_attempt_redis_command start h).0 ≡ true)
        × (timed_out ≡ false)
        × ((ping 0 ≡ pong) ⊎ (ping 1 ≡ pong) ⊎ (ping 2 ≡ pong) ⊎ (ping 3 ≡ pong)))
unfolding check_redis_health
check_redis_health-ok_iff start finish ping timed_out h = ground arith

-- When it says "ok", commands are let through at any later check, whatever failed before.
pub check_redis_health-opens :
    (start finish now : ℕ) (ping : ℕ → PingReply) (timed_out : Bool) (h : RedisHealth)
    → (check_redis_health start finish ping timed_out h).0 ≡ true
    → (can_attempt_redis_command now (check_redis_health start finish ping timed_out h).1).0 ≡ true
unfolding check_redis_health
check_redis_health-opens start finish now ping timed_out h ok = ground arith
