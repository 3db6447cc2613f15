-- ===== src/Breaker/Outage.antt =====
-- An outage seen by the circuit breaker of packages/cache/src/circuit-breaker.ts.
use urlfy_cc.Common.{ℕ, ◌<◌, ◌≤◌, ◌+◌, ◌≡◌, ◌≢◌, ◌↔◌, false, List, [], ◌∷◌, All, arith}
use urlfy_cc.Common.Effects.{threw, Eff}
use urlfy_cc.Breaker.{CircuitBreaker, rejected, opened, admit, on_success, on_failure, execute}
use urlfy_cc.Breaker.Machine.{
  Event, begin, succeed, fail, reset_by_hand, step, run, calls_operation,
}

-- The step happens from `s` on and before `t`, and is not a reset by hand.
abbrev pub Within : ℕ → ℕ → Event → Type 0
Within s t (begin now) = (s ≤ now) × (now < t)
Within s t (succeed now) = (s ≤ now) × (now < t)
Within s t (fail now) = (s ≤ now) × (now < t)
Within s t reset_by_hand = ⊥

-- The breaker rejects until `t` at least, and a failure from `s` on keeps it so.
pub record IsOut (s t : ℕ) (b : CircuitBreaker) : Type 0 where
  pub is_open : b.state ≡ opened
  pub long : t ≤ b.next_attempt
  pub renewed : t ≤ s + b.config.timeout

-- No step of the history calls the operation.
abbrev pub CallsNothing : List Event → CircuitBreaker → Type 0
CallsNothing [] b = Unit
CallsNothing (e ∷ es) b = (calls_operation e b ≡ false) × CallsNothing es (step e b)

step-IsOut :
    (s t : ℕ) (e : Event) (b : CircuitBreaker)
    → IsOut s t b
    → Within s t e
    → (calls_operation e b ≡ false) × IsOut s t (step e b)
unfolding step admit on_success on_failure
step-IsOut s t (begin now) b out h = ground arith
step-IsOut s t (succeed now) b out h = ground arith
step-IsOut s t (fail now) b out h = ground arith
step-IsOut s t reset_by_hand b out h = absurd h

run-IsOut :
    (s t : ℕ) (es : List Event) (b : CircuitBreaker)
    → IsOut s t b
    → All (Within s t) es
    → CallsNothing es b × IsOut s t (run es b)
unfolding run
run-IsOut s t [] b out h = (tt, out)
run-IsOut s t (e ∷ es) b out (here, later) =
    let (quiet, still) = step-IsOut s t e b out here in
    let (rest, last) = run-IsOut s t es (step e b) still later in ((quiet, rest), last)

on_failure-IsOut :
    (s : ℕ) (b : CircuitBreaker)
    → b.state ≢ opened
    → (on_failure s b).state ≡ opened
    → IsOut s (s + b.config.timeout) (on_failure s b)
unfolding on_failure
on_failure-IsOut s b was trips = ground arith

-- A failure at the time `s` that opens the breaker stops every call of the operation for the
-- whole timeout, and the breaker stays open: whatever requests arrive and whatever earlier calls
-- end, from `s` on and before `s + timeout`, in any order, as long as nobody resets it by hand.
pub outage-CallsNothing :
    (s : ℕ) (b : CircuitBreaker) (es : List Event)
    → b.state ≢ opened
    → (on_failure s b).state ≡ opened
    → All (Within s (s + b.config.timeout)) es
    → CallsNothing es (on_failure s b) × ((run es (on_failure s b)).state ≡ opened)
outage-CallsNothing s b es was trips h =
    let (quiet, out) =
      run-IsOut s (s + b.config.timeout) es (on_failure s b) (on_failure-IsOut s b was trips) h in
    (quiet, out.is_open)

-- A call of `execute` is rejected exactly when the breaker is open and its next attempt lies
-- ahead; the operation is then not run and nothing changes.
pub execute_rejects_iff :
    {W E A : Type 0} (start finish : ℕ) (fn : Eff W E A) (b : CircuitBreaker) (w : W)
    → ((execute start finish fn (b, w)).0 ≡ threw (rejected b.config.name)) ↔ (
        (b.state ≡ opened)
        × (start < b.next_attempt)
        × (execute start finish fn (b, w) ≡ (threw (rejected b.config.name), (b, w))))
unfolding execute admit
execute_rejects_iff start finish fn b w = ground arith
