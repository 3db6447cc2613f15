-- ===== src/Health/Tests.antt =====
-- Runs and instances for packages/cache/src/client.ts.
use urlfy_cc.Common.{ℕ, suc, ◌≡◌, refl, String, List, [], ◌∷◌}
use urlfy_cc.Health.{initial_health, PingReply, pong, other_reply, should_log_redis_failure}
use urlfy_cc.Health.LogGate.{log_times}

abbrev two_failures : List (ℕ × String)
two_failures = (10, "closed") ∷ (20, "closed") ∷ []

abbrev late_pong : ℕ → PingReply
late_pong n = elim n [ suc (suc k) ↦ pong | _ ↦ other_reply ]

logged_twice : log_times (5 ∷ 6 ∷ 12000 ∷ []) initial_health ≡ 5 ∷ 12000 ∷ []
unfolding log_times should_log_redis_failure
logged_twice = refl
