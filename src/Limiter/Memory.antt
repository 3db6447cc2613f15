-- ===== src/Limiter/Memory.antt =====
-- `InMemoryRateLimiter` of packages/cache/src/rate-limiter-core.ts: a counter for each key, in a
-- `Map` of bounded size.
pub mod Bounds
pub mod Quota
use urlfy_cc.Common.{
  ℕ, ◌+◌, Bool, true, false, Option, none, some, String, List, [], ◌∷◌, ltb, leb, if◌then◌else◌,
  length, keep, not, truthy_text, or_else,
}
use urlfy_cc.Common.JsMap.{get, set, delete, first_key}

pub record Counter : Type 0 where
  pub count : ℕ
  pub reset_at : ℕ

abbrev pub Counters : Type 0
Counters = List (String × Counter)

abbrev pub max_entries : ℕ
max_entries = 10000

pub record Verdict : Type 0 where
  pub allowed : Bool
  pub count : ℕ

-- Room for a new key: in a full map the oldest entry goes.
unfoldable pub evict : Counters → Counters
evict m =
    if leb max_entries (length m)
    then (if truthy_text (first_key m) then delete (or_else (first_key m) "") m else m)
    else m

abbrev pub fresh_counter : ℕ → ℕ → Counter
fresh_counter duration_ms now = record { count = 1; reset_at = now + duration_ms }

-- `check`
unfoldable pub check : String → ℕ → ℕ → ℕ → Counters → Verdict × Counters
check key points duration_ms now m = elim (get key m) [
  | none ↦ (record { allowed = true; count = 1 }, set key (fresh_counter duration_ms now) (evict m))
  | some entry ↦
      if leb entry.reset_at now
      then (record { allowed = true; count = 1 }, set key (fresh_counter duration_ms now) m)
      else (
        record { allowed = leb (entry.count + 1) points; count = entry.count + 1 },
        set key (record entry { count = entry.count + 1 }) m,
      )
]

-- `cleanup`
unfoldable pub cleanup : ℕ → Counters → Counters
cleanup now m = keep (λ e. ltb now (e.1).reset_at) m
