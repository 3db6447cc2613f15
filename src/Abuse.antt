-- ===== src/Abuse.antt =====
-- The counters of abuse and the blocks, `AntiAbuseService` of
-- packages/cache/src/anti-abuse-service.ts. The health of Redis is that of Health.
pub mod Counted
pub mod Blocked
mod Tests
use Prim.Native.String.{◌++◌ as ◌<>◌}
use urlfy_cc.Common.{
  ℕ, zero, suc, Bool, true, false, not, Option, none, some, String, List, [], ◌∷◌, leb, ltb, ◌==◌,
  if◌then◌else◌, truthy_text, or_else,
}
use urlfy_cc.Common.Effects.{Outcome, returned, threw, Eff, pure, ◌>>=◌, ◌>>◌}
use urlfy_cc.Health.{
  RedisHealth, can_attempt_redis_command, mark_redis_command_success, mark_redis_command_failure,
  should_log_redis_failure,
}

-- The keys of `THRESHOLDS`, in their order.
pub data EventType : Type 0 where
  login_failures signup_attempts link_creation api_errors password_reset : EventType

abbrev pub all_types : List EventType
all_types = login_failures ∷ signup_attempts ∷ link_creation ∷ api_errors ∷ password_reset ∷ []

abbrev pub name_of : EventType → String
name_of login_failures = "LOGIN_FAILURES"
name_of signup_attempts = "SIGNUP_ATTEMPTS"
name_of link_creation = "LINK_CREATION"
name_of api_errors = "API_ERRORS"
name_of password_reset = "PASSWORD_RESET"

pub record Threshold : Type 0 where
  pub count : ℕ
  pub window : ℕ

abbrev pub thresholds : EventType → Threshold
thresholds login_failures = record { count = 50; window = 300 }
thresholds signup_attempts = record { count = 10; window = 3600 }
thresholds link_creation = record { count = 100; window = 60 }
thresholds api_errors = record { count = 100; window = 60 }
thresholds password_reset = record { count = 5; window = 3600 }

abbrev pub abuse_key : EventType → String → String
abuse_key type key = "abuse:" <> name_of type <> ":" <> key

abbrev pub blocked_ip_key : String → String
blocked_ip_key ip = "blocked:ip:" <> ip

abbrev pub blocked_user_key : String → String
blocked_user_key user_id = "blocked:user:" <> user_id

abbrev pub attack_key : String → String
attack_key endpoint = "attack:" <> endpoint

-- The commands that are sent, the clock, `parseInt` of a text, which is `none` where that is no
-- number, and the JSON of a reason and a time. An error is its message.
pub record AbuseRedis (W : Type 0) : Type 0 where
  pub incr : String → Eff W String ℕ
  pub expire : String → ℕ → Eff W String (Unit {0})
  pub get : String → Eff W String (Option String)
  pub set : String → String → Eff W String (Unit {0})
  pub setex : String → ℕ → String → Eff W String (Unit {0})
  pub exists : String → Eff W String ℕ
  pub del : String → Eff W String (Unit {0})
  pub now : W → ℕ
  pub parse_int : String → Option ℕ
  pub stringify_block : String → ℕ → String

pub record AbuseState (W : Type 0) : Type 0 where
  pub health : RedisHealth
  pub world : W

-- A count that is read; `none` is no number.
abbrev pub reaches : ℕ → Option ℕ → Bool
reaches limit none = false
reaches limit (some n) = leb limit n

abbrev pub exceeds : ℕ → Option ℕ → Bool
exceeds limit none = false
exceeds limit (some n) = ltb limit n

module _ {W : Type 0} (redis : AbuseRedis W) where
  open redis use {incr, expire, get, set, setex, exists, del, now, parse_int, stringify_block}

  -- A block with its `catch`; `logs` says that the catch asks the gate of the logs.
  abbrev pub settled :
      {A : Type 0} → Bool → A → RedisHealth → Outcome String A × W → A × AbuseState W
  settled logs fallback health (returned a, w) =
      (a, record { health = mark_redis_command_success (now w) health; world = w })
  settled logs fallback health (threw e, w) =
      let failed = mark_redis_command_failure (now w) e health in
      (
        fallback,
        record {
          health = if logs then (should_log_redis_failure (now w) failed).1 else failed;
          world = w;
        },
      )

  -- The guard in front of each block, which answers `fallback` while Redis is held back.
  abbrev pub guarded : {A : Type 0} → Bool → A → Eff W String A → AbuseState W → A × AbuseState W
  guarded logs fallback block s =
      let (may_try, health) = can_attempt_redis_command (now s.world) s.health in
      if may_try
      then settled logs fallback health (block s.world)
      else (fallback, record { health = health; world = s.world })

  -- `count ? parseInt(count, 10) : 0`
  abbrev pub count_of : Option String → Option ℕ
  count_of raw = if truthy_text raw then parse_int (or_else raw "") else some 0

  -- `recordEvent`
  unfoldable pub record_event : EventType → String → AbuseState W → Unit {0} × AbuseState W
  record_event type key =
      guarded false tt
        (incr (abuse_key type key) >> expire (abuse_key type key) (thresholds type).window)

  abbrev pub judge_count : EventType → Option String → Bool
  judge_count type raw =
      if not (truthy_text raw)
      then false
      else reaches (thresholds type).count (parse_int (or_else raw ""))

  -- `isAnomalous`
  unfoldable pub is_anomalous : EventType → String → AbuseState W → Bool × AbuseState W
  is_anomalous type key =
      guarded false false (get (abuse_key type key) >>= λ raw. pure (judge_count type raw))

  -- `getEventCount`
  unfoldable pub get_event_count : EventType → String → AbuseState W → Option ℕ × AbuseState W
  get_event_count type key =
      guarded false (some 0) (get (abuse_key type key) >>= λ raw. pure (count_of raw))

  -- The text of a block is made when the command is sent.
  abbrev pub send_block : String → ℕ → String → Eff W String (Unit {0})
  send_block key ttl reason w = setex key ttl (stringify_block reason (now w)) w

  abbrev pub send_lasting_block : String → String → Eff W String (Unit {0})
  send_lasting_block key reason w = set key (stringify_block reason (now w)) w

  -- `blockIP`, `isIPBlocked` and `unblockIP`
  unfoldable pub block_ip : String → String → ℕ → AbuseState W → Unit {0} × AbuseState W
  block_ip ip reason ttl = guarded false tt (send_block (blocked_ip_key ip) ttl reason)

  abbrev pub there : String → Eff W String Bool
  there key = exists key >>= λ n. pure (n == 1)

  unfoldable pub is_ip_blocked : String → AbuseState W → Bool × AbuseState W
  is_ip_blocked ip = guarded true false (there (blocked_ip_key ip))

  unfoldable pub unblock_ip : String → AbuseState W → Unit {0} × AbuseState W
  unblock_ip ip = guarded false tt (del (blocked_ip_key ip))

  -- `blockUser`, `isUserBlocked` and `unblockUser`
  unfoldable pub block_user : String → String → AbuseState W → Unit {0} × AbuseState W
  block_user user_id reason =
      guarded false tt (send_lasting_block (blocked_user_key user_id) reason)

  unfoldable pub is_user_blocked : String → AbuseState W → Bool × AbuseState W
  is_user_blocked user_id = guarded false false (there (blocked_user_key user_id))

  unfoldable pub unblock_user : String → AbuseState W → Unit {0} × AbuseState W
  unblock_user user_id = guarded false tt (del (blocked_user_key user_id))

  -- What follows the verdict: the address is blocked where `blocks` says so.
  abbrev pub answer_anomaly : Bool → String → String → ℕ → Bool × AbuseState W → Bool × AbuseState W
  answer_anomaly blocks ip reason ttl (false, s) = (false, s)
  answer_anomaly blocks ip reason ttl (true, s) =
      (true, if blocks then (block_ip ip reason ttl s).1 else s)

  -- `recordLoginFailure`; nothing that it calls throws.
  unfoldable pub record_login_failure : String → AbuseState W → Bool × AbuseState W
  record_login_failure ip s =
      answer_anomaly true ip "Excessive login failures" 1800
        (is_anomalous login_failures ip (record_event login_failures ip s).1)

  abbrev pub creation_key : Option String → String → String
  creation_key user_id ip = if truthy_text user_id then or_else user_id "" else ip

  -- `recordLinkCreation`
  unfoldable pub record_link_creation : Option String → String → AbuseState W → Bool × AbuseState W
  record_link_creation user_id ip s =
      let key = creation_key user_id ip in
      answer_anomaly (not (truthy_text user_id)) ip "Excessive link creation" 600
        (is_anomalous link_creation key (record_event link_creation key s).1)

  abbrev pub judge_attack : Option ℕ → Bool × Option ℕ
  judge_attack n = (exceeds 1000 n, n)

  -- `checkDistributedAttack`
  unfoldable pub check_distributed_attack : String → AbuseState W → (Bool × Option ℕ) × AbuseState W
  check_distributed_attack endpoint =
      guarded false (false, some 0)
        (get (attack_key endpoint) >>= λ raw. pure (judge_attack (count_of raw)))

  abbrev pub delete_all : List EventType → String → Eff W String (Unit {0})
  delete_all [] ip = pure tt
  delete_all (type ∷ types) ip = del (abuse_key type ip) >> delete_all types ip

  -- `resetIPCounters`
  unfoldable pub reset_ip_counters : String → AbuseState W → Unit {0} × AbuseState W
  reset_ip_counters ip = guarded false tt (delete_all all_types ip)

  abbrev pub report_entry : EventType → Option ℕ → List (EventType × ℕ) → List (EventType × ℕ)
  report_entry type none rest = rest
  report_entry type (some zero) rest = rest
  report_entry type (some (suc n)) rest = (type, suc n) ∷ rest

  abbrev pub report_of :
      List EventType → String → AbuseState W → List (EventType × ℕ) × AbuseState W
  report_of [] ip s = ([], s)
  report_of (type ∷ types) ip s =
      let (n, s1) = get_event_count type ip s in
      let (rest, s2) = report_of types ip s1 in (report_entry type n rest, s2)

  -- `getIPAbuseReport`
  unfoldable pub get_ip_abuse_report : String → AbuseState W → List (EventType × ℕ) × AbuseState W
  get_ip_abuse_report ip = report_of all_types ip
