-- ===== src/Breaker/Invariant.antt =====
-- What holds of the circuit breaker of packages/cache/src/circuit-breaker.ts in every history.
use urlfy_cc.Common.{ℕ, ◌<◌, ◌≡◌, refl, List, [], ◌∷◌, arith}
use urlfy_cc.Breaker.{
  CircuitBreaker, CircuitBreakerConfig, closed, half_open, admit, on_success, on_failure, reset,
}
use urlfy_cc.Breaker.Machine.{Event, begin, succeed, fail, reset_by_hand, step, run}

pub record HasThresholds (c : CircuitBreakerConfig) : Type 0 where
  pub some_failures : 0 < c.failure_threshold
  pub some_successes : 0 < c.success_threshold

-- A closed breaker has fewer failures than trip it, a half-open one fewer successes than close it.
pub record IsValid (b : CircuitBreaker) : Type 0 where
  pub below_trip : b.state ≡ closed → b.failure_count < b.config.failure_threshold
  pub below_recovery : b.state ≡ half_open → b.success_count < b.config.success_threshold

module _ (b : CircuitBreaker) (t : HasThresholds b.config) (v : IsValid b) where
  admit-IsValid : (now : ℕ) → IsValid (step (begin now) b)
  unfolding step admit
  admit-IsValid now = ground arith

  on_success-IsValid : (now : ℕ) → IsValid (on_success now b)
  unfolding on_success
  on_success-IsValid now = ground arith

  on_failure-IsValid : (now : ℕ) → IsValid (on_failure now b)
  unfolding on_failure
  on_failure-IsValid now = ground arith

  reset-IsValid : IsValid (reset b)
  unfolding reset
  reset-IsValid = ground arith

step-IsValid :
    (e : Event) (b : CircuitBreaker) → HasThresholds b.config → IsValid b → IsValid (step e b)
unfolding step
step-IsValid (begin now) b t v = admit-IsValid b t v now
step-IsValid (succeed now) b t v = on_success-IsValid b t v now
step-IsValid (fail now) b t v = on_failure-IsValid b t v now
step-IsValid reset_by_hand b t v = reset-IsValid b t v

pub step-config : (e : Event) (b : CircuitBreaker) → (step e b).config ≡ b.config
unfolding step admit on_success on_failure reset
step-config (begin now) b = ground arith
step-config (succeed now) b = ground arith
step-config (fail now) b = ground arith
step-config reset_by_hand b = refl

-- With positive thresholds, whatever the interleaving of the steps, a closed breaker has counted
-- fewer failures than trip it and a half-open one fewer successes than close it.
pub run-IsValid :
    (es : List Event) (b : CircuitBreaker) → HasThresholds b.config → IsValid b → IsValid (run es b)
unfolding run
run-IsValid [] b t v = v
run-IsValid (e ∷ es) b t v =
    run-IsValid es (step e b) (ground (arith, step-config e b)) (step-IsValid e b t v)
