-- ===== src/Breaker/Machine.antt =====
-- Interleavings of the steps of packages/cache/src/circuit-breaker.ts. Each call of `execute` takes
-- a `begin` step and, if it was admitted, a `succeed` or a `fail` step at any later place.
use urlfy_cc.Common.{ℕ, List, [], ◌∷◌, Bool, true, false, Option, none, some}
use urlfy_cc.Breaker.{CircuitBreaker, admit, on_success, on_failure, reset}

pub data Event : Type 0 where
  begin succeed fail : ℕ → Event
  reset_by_hand : Event

-- A `begin` that is rejected changes nothing.
abbrev pub or_same : Option CircuitBreaker → CircuitBreaker → CircuitBreaker
or_same none b = b
or_same (some b') b = b'

unfoldable pub step : Event → CircuitBreaker → CircuitBreaker
step (begin now) b = or_same (admit now b) b
step (succeed now) b = on_success now b
step (fail now) b = on_failure now b
step reset_by_hand b = reset b

unfoldable pub run : List Event → CircuitBreaker → CircuitBreaker
run [] b = b
run (e ∷ es) b = run es (step e b)

-- The `begin` steps of a history that call their operation.
abbrev pub is_admitted : Option CircuitBreaker → Bool
is_admitted none = false
is_admitted (some _) = true

abbrev pub calls_operation : Event → CircuitBreaker → Bool
calls_operation (begin now) b = is_admitted (admit now b)
calls_operation _ b = false
