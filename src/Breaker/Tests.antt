-- ===== src/Breaker/Tests.antt =====
-- Runs and instances for packages/cache/src/circuit-breaker.ts.
use urlfy_cc.Common.{◌↔◌, ◌≤◌, ◌+◌, ℕ, ◌≡◌, refl, none, [], ◌∷◌, map, arith}
use urlfy_cc.Common.Effects.{Eff, pure}
use urlfy_cc.Breaker.{CircuitBreaker, opened, make_breaker, on_failure}
use urlfy_cc.Breaker.Machine.{begin, succeed, fail, step, run}
use urlfy_cc.Breaker.Outage.{CallsNothing, outage-CallsNothing}
use urlfy_cc.Breaker.Counting.{failures-open_iff}

abbrev db : CircuitBreaker
db = make_breaker 0 (record {
  failure_threshold? = none;
  success_threshold? = none;
  timeout? = none;
  reset_timeout? = none;
  name = "postgresql";
})

abbrev shaky : CircuitBreaker
shaky = record db { failure_count = 4 }

abbrev tripped : CircuitBreaker
tripped = record db { state = opened; failure_count = 5; next_attempt = 30040 }

five_failures : (run (map fail (0 ∷ 10 ∷ 20 ∷ 30 ∷ 40 ∷ [])) db).state ≡ opened
unfolding run step on_failure
five_failures = refl

outage-CallsNothing_example :
    CallsNothing (begin 50 ∷ succeed 60 ∷ begin 70 ∷ []) (on_failure 40 shaky)
    × ((run (begin 50 ∷ succeed 60 ∷ begin 70 ∷ []) (on_failure 40 shaky)).state ≡ opened)
unfolding on_failure
outage-CallsNothing_example =
    outage-CallsNothing 40 shaky (begin 50 ∷ succeed 60 ∷ begin 70 ∷ []) (λ e. cc) refl
      (omega arith)

abbrev fetch : Eff ℕ ℕ ℕ
fetch = pure 7

failures-open_iff_example :
    ((run (map fail (0 ∷ 60000 ∷ 120000 ∷ 180000 ∷ 240000 ∷ [])) db).state ≡ opened) ↔ (5 ≤ 0 + 5)
failures-open_iff_example =
    failures-open_iff (0 ∷ 60000 ∷ 120000 ∷ 180000 ∷ 240000 ∷ []) db refl (omega arith)
