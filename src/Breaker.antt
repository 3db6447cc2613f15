-- ===== src/Breaker.antt =====
-- The circuit breaker, packages/cache/src/circuit-breaker.ts. A call of `execute` awaits the
-- operation, so it is two steps, `admit` before the await and `on_success` or `on_failure` after
-- it; between them other calls may take theirs. Times are in milliseconds.
pub mod Machine
pub mod Invariant
pub mod Outage
pub mod Counting
mod Tests
use urlfy_cc.Common.{
  ℕ, ◌+◌, ◌-◌, Bool, true, false, Option, none, some, String, ltb, leb, if◌then◌else◌, or_else,
}
use urlfy_cc.Common.Effects.{Outcome, returned, threw, Eff}

pub data CircuitState : Type 0 where
  closed opened half_open : CircuitState

pub record CircuitBreakerConfig : Type 0 where
  pub failure_threshold : ℕ
  pub success_threshold : ℕ
  pub timeout : ℕ
  pub reset_timeout : ℕ
  pub name : String

-- `Partial<CircuitBreakerConfig> & { name: string }`
pub record PartialConfig : Type 0 where
  pub failure_threshold? : Option ℕ
  pub success_threshold? : Option ℕ
  pub timeout? : Option ℕ
  pub reset_timeout? : Option ℕ
  pub name : String

pub record CircuitBreaker : Type 0 where
  pub state : CircuitState
  pub failure_count : ℕ
  pub success_count : ℕ
  pub next_attempt : ℕ
  pub last_failure_time : ℕ
  pub config : CircuitBreakerConfig

-- `{ ...DEFAULT_CONFIG, ...config }`
abbrev pub with_defaults : PartialConfig → CircuitBreakerConfig
with_defaults c = record {
  failure_threshold = or_else c.failure_threshold? 5;
  success_threshold = or_else c.success_threshold? 2;
  timeout = or_else c.timeout? 30000;
  reset_timeout = or_else c.reset_timeout? 10000;
  name = c.name;
}

-- The constructor, at the time `now`.
abbrev pub make_breaker : ℕ → PartialConfig → CircuitBreaker
make_breaker now c = record {
  state = closed;
  failure_count = 0;
  success_count = 0;
  next_attempt = now;
  last_failure_time = now;
  config = with_defaults c;
}

abbrev pub is_opened : CircuitState → Bool
is_opened opened = true
is_opened _ = false

abbrev pub is_half_open : CircuitState → Bool
is_half_open half_open = true
is_half_open _ = false

-- `execute` up to the call of the operation; `none` is the error that rejects the request.
unfoldable pub admit : ℕ → CircuitBreaker → Option CircuitBreaker
admit now b =
    if is_opened b.state
    then (if ltb now b.next_attempt
        then none
        else some (record b { state = half_open; success_count = 0 }))
    else some b

-- The half-open part of `onSuccess`.
abbrev pub count_success : CircuitBreaker → CircuitBreaker
count_success b =
    if is_half_open b.state
    then (if leb b.config.success_threshold (b.success_count + 1)
        then record b { state = closed; success_count = 0 }
        else record b { success_count = b.success_count + 1 })
    else b

-- The end of `onSuccess`.
abbrev pub forget_old_failures : ℕ → CircuitBreaker → CircuitBreaker
forget_old_failures now b =
    if ltb b.config.reset_timeout (now - b.last_failure_time)
    then record b { failure_count = 0 }
    else b

unfoldable pub on_success : ℕ → CircuitBreaker → CircuitBreaker
on_success now b = forget_old_failures now (count_success (record b { failure_count = 0 }))

unfoldable pub on_failure : ℕ → CircuitBreaker → CircuitBreaker
on_failure now b =
    let counted : CircuitBreaker = record b {
      failure_count = b.failure_count + 1;
      last_failure_time = now;
    } in
    if is_half_open b.state
    then record counted { state = opened; next_attempt = now + b.config.timeout }
    else (if leb b.config.failure_threshold (b.failure_count + 1)
        then record counted { state = opened; next_attempt = now + b.config.timeout }
        else counted)

unfoldable pub reset : CircuitBreaker → CircuitBreaker
reset b = record b { state = closed; failure_count = 0; success_count = 0 }

-- The error of a rejected request, or that of the operation.
pub data BreakerError (E : Type 0) : Type 0 where
  rejected : String → BreakerError E
  failed : E → BreakerError E

module _ {W E A : Type 0} where
  abbrev pub settle :
      ℕ → CircuitBreaker → Outcome E A × W → Outcome (BreakerError E) A × (CircuitBreaker × W)
  settle finish b (returned a, w) = (returned a, (on_success finish b, w))
  settle finish b (threw e, w) = (threw (failed e), (on_failure finish b, w))

  -- `execute`, with no other call between its two steps; `start` and `finish` are the times.
  unfoldable pub execute : ℕ → ℕ → Eff W E A → Eff (CircuitBreaker × W) (BreakerError E) A
  execute start finish fn (b, w) = elim (admit start b) [
    | none ↦ (threw (rejected b.config.name), (b, w))
    | some b' ↦ settle finish b' (fn w)
  ]

  -- The `catch` of `executeWithFallback`: the fallback runs on the same world.
  abbrev pub recover :
      Outcome (BreakerError E) A × (CircuitBreaker × W)
      → Eff W E A
      → Outcome E A × (CircuitBreaker × W)
  recover (returned a, s) fallback = (returned a, s)
  recover (threw _, (b, w)) fallback = let (r, w') = fallback w in (r, (b, w'))

  unfoldable pub execute_with_fallback :
      ℕ → ℕ → Eff W E A → Eff W E A → Eff (CircuitBreaker × W) E A
  execute_with_fallback start finish primary fallback s =
      recover (execute start finish primary s) fallback
