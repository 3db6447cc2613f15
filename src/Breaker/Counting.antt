-- ===== src/Breaker/Counting.antt =====
-- How many failures open the circuit breaker of packages/cache/src/circuit-breaker.ts, and how many
-- successes close it.
use urlfy_cc.Common.{ℕ, ◌<◌, ◌≤◌, ◌+◌, ◌≡◌, refl, ◌↔◌, List, [], ◌∷◌, map, length, arith, ap, ◌∙◌}
use urlfy_cc.Breaker.{
  CircuitBreaker, closed, opened, half_open, admit, on_success, on_failure, reset,
}
use urlfy_cc.Breaker.Machine.{Event, begin, succeed, fail, reset_by_hand, step, run}

failures-opened :
    (ts : List ℕ) (b : CircuitBreaker) → b.state ≡ opened → (run (map fail ts) b).state ≡ opened
unfolding run step on_failure
failures-opened [] b h = h
failures-opened (t ∷ ts) b h = failures-opened ts (on_failure t b) (ground arith)

-- A closed breaker is open after a row of failures exactly when they reach the threshold, those
-- counted before included, however far apart they are: time alone makes it forget none.
pub failures-open_iff :
    (ts : List ℕ) (b : CircuitBreaker)
    → b.state ≡ closed
    → b.failure_count < b.config.failure_threshold
    → ((run (map fail ts) b).state ≡ opened)
      ↔ (b.config.failure_threshold ≤ b.failure_count + length ts)
unfolding run step on_failure
failures-open_iff [] b h below = ground arith
failures-open_iff (t ∷ ts) b h below =
    ground (arith, failures-open_iff ts (on_failure t b), failures-opened ts (on_failure t b))

successes-closed :
    (ts : List ℕ) (b : CircuitBreaker) → b.state ≡ closed → (run (map succeed ts) b).state ≡ closed
unfolding run step on_success
successes-closed [] b h = h
successes-closed (t ∷ ts) b h = successes-closed ts (on_success t b) (ground arith)

successes-close_iff :
    (ts : List ℕ) (b : CircuitBreaker)
    → b.state ≡ half_open
    → b.success_count < b.config.success_threshold
    → ((run (map succeed ts) b).state ≡ closed)
      ↔ (b.config.success_threshold ≤ b.success_count + length ts)
unfolding run step on_success
successes-close_iff [] b h below = ground arith
successes-close_iff (t ∷ ts) b h below =
    ground (arith, successes-close_iff ts (on_success t b), successes-closed ts (on_success t b))

-- Once the timeout is over, the next request makes the breaker half-open, and a row of successes
-- then closes it exactly when it is as long as the success threshold (which is positive).
pub recovery_iff :
    (now : ℕ) (ts : List ℕ) (b : CircuitBreaker)
    → b.state ≡ opened
    → b.next_attempt ≤ now
    → 0 < b.config.success_threshold
    → ((run (begin now ∷ map succeed ts) b).state ≡ closed)
      ↔ (b.config.success_threshold ≤ length ts)
unfolding run step admit
recovery_iff now ts b h over positive =
    ground (arith, successes-close_iff ts (record b { state = half_open; success_count = 0 }))

abbrev pub with_reset_timeout : ℕ → CircuitBreaker → CircuitBreaker
with_reset_timeout n b = record b { config = record b.config { reset_timeout = n } }

step-with_reset_timeout :
    (n : ℕ) (e : Event) (b : CircuitBreaker)
    → step e (with_reset_timeout n b) ≡ with_reset_timeout n (step e b)
unfolding step admit on_success on_failure reset
step-with_reset_timeout n (begin now) b = ground arith
step-with_reset_timeout n (succeed now) b = ground arith
step-with_reset_timeout n (fail now) b = ground arith
step-with_reset_timeout n reset_by_hand b = refl

-- `resetTimeout` has no effect: with any other value every history leads to the same breaker, but
-- for that field.
pub run-with_reset_timeout :
    (n : ℕ) (es : List Event) (b : CircuitBreaker)
    → run es (with_reset_timeout n b) ≡ with_reset_timeout n (run es b)
unfolding run
run-with_reset_timeout n [] b = refl
run-with_reset_timeout n (e ∷ es) b =
    ap (run es) (step-with_reset_timeout n e b) ∙ run-with_reset_timeout n es (step e b)
