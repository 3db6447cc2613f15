-- ===== src/Idempotency.antt =====
-- Idempotency keys, apps/api/src/server/lib/idempotency.ts, over an interface of Redis. The health of
-- Redis is that of Health; the world holds what Redis and the clock are.
pub mod Replay
pub mod Exclusion
pub mod Key
mod Tests
use Prim.Native.String.{◌++◌ as ◌<>◌}
use package.text.Mathlib.Text.{◌==◌ as str_eq}
use urlfy_cc.Common.{
  ℕ, ◌||◌, ◌&&◌, ◌*◌, ◌≡◌, ◌≢◌, Bool, true, false, not, Option, none, some, String, List, [], ◌∷◌,
  ◌++◌, ◌==◌, leb, if◌then◌else◌, truthy_text, or_else,
}
use urlfy_cc.Common.Effects.{Outcome, returned, threw, Eff, pure, ◌>>=◌}
use urlfy_cc.Health.{
  RedisHealth, can_attempt_redis_command, mark_redis_command_success, mark_redis_command_failure,
  should_log_redis_failure,
}
use urlfy_cc.Alias.{Item, need, repeat, copies, matches, codes, is_alphanumeric}

-- The commands of Redis that are used; the laws hold for a command that is answered, while no key
-- expires.
pub record IdempotencyRedis : Type 1 where
  pub Store : Type 0
  pub value : String → Store → Option String
  pub get : String → Eff Store String (Option String)
  pub set_ex : String → String → ℕ → Eff Store String (Unit {0})
  pub set_nx_ex : String → String → ℕ → Eff Store String Bool
  pub del : String → Eff Store String (Unit {0})
  pub clock : Store → ℕ
  pub get-reads :
      (key : String) (w w' : Store) (v : Option String)
      → get key w ≡ (returned v, w')
      → (v ≡ value key w) × ((j : String) → value j w' ≡ value j w)
  pub set-writes :
      (key v : String) (ttl : ℕ) (w w' : Store)
      → set_ex key v ttl w ≡ (returned tt, w')
      → value key w' ≡ some v
  pub set_nx-writes :
      (key v : String) (ttl : ℕ) (w w' : Store)
      → set_nx_ex key v ttl w ≡ (returned true, w')
      → (value key w ≡ none)
        × (value key w' ≡ some v)
        × ((j : String) → j ≢ key → value j w' ≡ value j w)
  pub set_nx-refuses :
      (key v : String) (ttl : ℕ) (w w' : Store)
      → set_nx_ex key v ttl w ≡ (returned false, w')
      → (value key w ≢ none) × ((j : String) → value j w' ≡ value j w)

-- `IdempotencyRecord`
pub record IdempotencyRecord : Type 0 where
  pub resource_id : String
  pub payload_hash : Option String

-- What `JSON.parse` yields, as far as it is looked at: an object with a `resourceId` that is a text,
-- or another value, as `String` prints it.
pub data Parsed : Type 0 where
  of_record : IdempotencyRecord → Parsed
  other_value : String → Parsed

-- The JSON of the language: the parser, `none` where it throws, and the printer of a record.
pub record JsonApi : Type 0 where
  pub parse : String → Option Parsed
  pub stringify : IdempotencyRecord → String

pub data IdempotencyCheckResult : Type 0 where
  hit : String → IdempotencyCheckResult
  conflict in_progress miss : IdempotencyCheckResult

-- The parts of a key's scope.
pub record Scope : Type 0 where
  pub key : String
  pub principal : String
  pub route : String

-- `buildScopedKey` and `buildLockKey`
abbrev pub build_scoped_key : Scope → String
build_scoped_key s = "idempotency:" <> s.principal <> ":" <> s.route <> ":" <> s.key

abbrev pub build_lock_key : Scope → String
build_lock_key s = "idempotency:lock:" <> s.principal <> ":" <> s.route <> ":" <> s.key

abbrev pub ttl_seconds : ℕ
ttl_seconds = 86400

abbrev pub lock_ttl_seconds : ℕ
lock_ttl_seconds = 30

-- Two hashes that are both given and differ.
abbrev pub differs : Option String → Option String → Bool
differs current stored =
    truthy_text current
    && (truthy_text stored && not (str_eq (or_else stored "") (or_else current "")))

-- The record that a stored text stands for, those of the older formats included.
abbrev pub record_of : String → Option Parsed → IdempotencyRecord
record_of raw none = record { resource_id = raw; payload_hash = none }
record_of raw (some (of_record r)) = r
record_of raw (some (other_value s)) = record { resource_id = s; payload_hash = none }

abbrev pub judge_record : Option String → IdempotencyRecord → IdempotencyCheckResult
judge_record current r = if differs current r.payload_hash then conflict else hit r.resource_id

-- The answer while no record is there, from the lock's value.
abbrev pub judge_pending : Option String → Option String → IdempotencyCheckResult
judge_pending current pending =
    if not (truthy_text pending)
    then miss
    else (if truthy_text current
          && (not (str_eq (or_else pending "") "pending")
              && not (str_eq (or_else pending "") (or_else current "")))
        then conflict
        else in_progress)

module _ (redis : IdempotencyRedis) (json : JsonApi) where
  open redis use {Store, get, set_ex, set_nx_ex, del, clock}

  pub record IdempotencyState : Type 0 where
    pub health : RedisHealth
    pub world : Store

  -- A block with its `catch`: a success is marked, an error too, and then the answer is `fallback`.
  abbrev pub marked :
      {A : Type 0} → A → RedisHealth → Outcome String A × Store → A × IdempotencyState
  marked fallback health (returned a, w) =
      (a, record { health = mark_redis_command_success (clock w) health; world = w })
  marked fallback health (threw e, w) = (
    fallback,
    record {
      health =
          (should_log_redis_failure (clock w) (mark_redis_command_failure (clock w) e health)).1;
      world = w;
    },
  )

  -- The guard in front of each command, and the block.
  abbrev pub guarded :
      {A : Type 0} → A → Eff Store String A → IdempotencyState → A × IdempotencyState
  guarded fallback block s =
      let (may_try, health) = can_attempt_redis_command (clock s.world) s.health in
      if may_try
      then marked fallback health (block s.world)
      else (fallback, record { health = health; world = s.world })

  abbrev pub look_at_lock : Scope → Option String → Eff Store String IdempotencyCheckResult
  look_at_lock scope current = do
    pending ← get (build_lock_key scope)
    pure (judge_pending current pending)

  abbrev pub judge_raw :
      Scope → Option String → Option String → Eff Store String IdempotencyCheckResult
  judge_raw scope current raw =
      if truthy_text raw
      then pure (judge_record current (record_of (or_else raw "") (json.parse (or_else raw ""))))
      else look_at_lock scope current

  -- `checkIdempotency`
  unfoldable pub check_idempotency :
      Scope → Option String → IdempotencyState → IdempotencyCheckResult × IdempotencyState
  check_idempotency scope current =
      guarded miss (do raw ← get (build_scoped_key scope); judge_raw scope current raw)

  -- `acquireIdempotencyLock`
  unfoldable pub acquire_idempotency_lock :
      Scope → Option String → IdempotencyState → Bool × IdempotencyState
  acquire_idempotency_lock scope hash =
      guarded true (set_nx_ex (build_lock_key scope) (or_else hash "pending") lock_ttl_seconds)

  -- `releaseIdempotencyLock`
  pub release_idempotency_lock : Scope → IdempotencyState → Unit {0} × IdempotencyState
  release_idempotency_lock scope = guarded tt (del (build_lock_key scope))

  -- `...(payloadHash && { payloadHash })`
  abbrev pub make_record : String → Option String → IdempotencyRecord
  make_record resource_id hash = record {
    resource_id = resource_id;
    payload_hash = if truthy_text hash then hash else none;
  }

  -- `setIdempotency`
  unfoldable pub set_idempotency :
      Scope → String → Option String → IdempotencyState → Unit {0} × IdempotencyState
  set_idempotency scope resource_id hash =
      guarded tt (
        set_ex (build_scoped_key scope) (json.stringify (make_record resource_id hash)) ttl_seconds)

-- `[0-9a-f]` with the flag `i`, and `[a-zA-Z0-9_-]`
abbrev pub is_hex : ℕ → Bool
is_hex c = (leb b'0' c && leb c b'9') || ((leb b'a' c && leb c b'f') || (leb b'A' c && leb c b'F'))

abbrev pub is_key_character : ℕ → Bool
is_key_character c = is_alphanumeric c || (c == b'_' || c == b'-')

abbrev pub is_hyphen : ℕ → Bool
is_hyphen c = c == b'-'

abbrev pub uuid_regex : List Item
uuid_regex =
    copies 8 (need is_hex)
    ++ (need is_hyphen
        ∷ (copies 4 (need is_hex)
            ++ (need is_hyphen
                ∷ (copies 4 (need is_hex)
                    ++ (need is_hyphen
                        ∷ (copies 4 (need is_hex)
                            ++ (need is_hyphen ∷ copies 12 (need is_hex))))))))

abbrev pub alphanumeric_regex : List Item
alphanumeric_regex = repeat 16 64 is_key_character

-- `validateIdempotencyKey`
unfoldable pub validate_idempotency_key : String → Bool
validate_idempotency_key key =
    matches uuid_regex (codes key) || matches alphanumeric_regex (codes key)
