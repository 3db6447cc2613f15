-- ===== src/Worker.antt =====
-- `WorkerBase` of apps/worker/src/server/lib/worker-base.ts: a batch of stream messages is processed,
-- what fails is requeued, moved to the dead letters or dropped, and acknowledged.
pub mod Ledger
pub mod Acknowledge
pub mod Retry
mod Tests
use urlfy_cc.Common.{
  ℕ, suc, ◌+◌, ◌-◌, ◌*◌, Bool, true, false, Option, none, some, String, List, [], ◌∷◌, ltb, leb,
  min, max, length, if◌then◌else◌, truthy_text, or_else, get_elem?,
}
use urlfy_cc.Common.Effects.{Outcome, returned, threw, Eff, pure, throw, catch, ◌>>=◌, ◌>>◌}
use urlfy_cc.Common.JsMap.{get, set}

-- The value of a payload's field; numbers are natural.
pub data Field : Type 0 where
  text : String → Field
  number : ℕ → Field

abbrev pub Fields : Type 0
Fields = List (String × Field)

-- `StreamMessage`; its data are the payload.
pub record Message : Type 0 where
  pub id : String
  pub fields : Fields

-- What `maxRetries` and the other settings come to.
pub record WorkerConfig : Type 0 where
  pub stream : String
  pub dead_letter_stream : String
  pub max_retries : ℕ

-- The constructor's defaults.
abbrev pub make_config : String → Option String → Option ℕ → WorkerConfig
make_config stream dead_letter_stream max_retries = record {
  stream = stream;
  dead_letter_stream = or_else dead_letter_stream "";
  max_retries = or_else max_retries 3;
}

-- `RedisStream` for the worker's stream and group, the subclass's `processMessage`, the clock, and the
-- language's `parseInt`, which answers `none` for no number and 0 here for a negative one,
-- and `JSON.stringify`.
pub record WorkerServices (W E : Type 0) : Type 0 where
  pub process_message : String → Fields → Eff W E (Unit {0})
  pub add : String → Fields → Option ℕ → Eff W E (Unit {0})
  pub ack : List String → Eff W E (Unit {0})
  pub sleep : ℕ → Eff W E (Unit {0})
  pub now_iso : W → String
  pub parse_int : String → Option ℕ
  pub stringify : Fields → String

abbrev pub dlq_maxlen : ℕ
dlq_maxlen = 10000

abbrev pub retry_backoffs_ms : List ℕ
retry_backoffs_ms = 1000 ∷ 5000 ∷ 30000 ∷ []

-- `getRetryBackoffMs`
abbrev pub get_retry_backoff_ms : ℕ → ℕ
get_retry_backoff_ms retry_count =
    or_else
      (get_elem? retry_backoffs_ms (max 0 (min (retry_count - 1) (length retry_backoffs_ms - 1)))) 0

abbrev pub text_or : Option Field → String → String
text_or none fallback = fallback
text_or (some (text s)) fallback = s
text_or (some (number n)) fallback = fallback

abbrev pub read_count : (String → Option ℕ) → Option Field → ℕ
read_count parse_int none = 0
read_count parse_int (some (number n)) = n
read_count parse_int (some (text s)) = or_else (parse_int s) 0

-- `getRetryCount`
abbrev pub get_retry_count : (String → Option ℕ) → Message → ℕ
get_retry_count parse_int message = read_count parse_int (get "retryCount" message.fields)

-- `buildRetryPayload`; `now` is the time as text.
unfoldable pub build_retry_payload : String → Message → ℕ → Fields
build_retry_payload now message retry_count =
    set "firstFailedAt" (text (text_or (get "firstFailedAt" message.fields) now)) (
      set "originalId" (text (text_or (get "originalId" message.fields) message.id))
        (set "retryCount" (number retry_count) message.fields))

-- The payload that `moveToDLQ` adds to the dead letters.
abbrev pub dead_letter : (Fields → String) → WorkerConfig → Message → ℕ → String → Fields
dead_letter stringify config message retry_count now =
    ("originalStream", text config.stream)
    ∷ ("originalId", text message.id)
    ∷ ("retryCount", number retry_count)
    ∷ ("failedAt", text now)
    ∷ ("data", text (stringify message.fields))
    ∷ []

module _ {W E : Type 0} (services : WorkerServices W E) (config : WorkerConfig) where
  open services use {process_message, add, ack, sleep, now_iso, parse_int, stringify}

  -- `acknowledgeMessage`
  abbrev pub acknowledge_message : String → Eff W E (Unit {0})
  acknowledge_message id = ack (id ∷ [])

  abbrev pub add_retry : Message → ℕ → Eff W E (Unit {0})
  add_retry message retry_count w =
      add config.stream (build_retry_payload (now_iso w) message retry_count) none w

  -- `requeueMessage`; the backoff is never 0.
  abbrev pub requeue_message : Message → ℕ → Eff W E (Unit {0})
  requeue_message message retry_count = do
    sleep (get_retry_backoff_ms retry_count)
    add_retry message retry_count
    acknowledge_message message.id

  abbrev pub add_dead_letter : Message → ℕ → Eff W E (Unit {0})
  add_dead_letter message retry_count w =
      add config.dead_letter_stream (dead_letter stringify config message retry_count (now_iso w))
        (some dlq_maxlen) w

  -- `moveToDLQ`, which is called with a dead letter stream only.
  abbrev pub move_to_dlq : Message → ℕ → Eff W E (Unit {0})
  move_to_dlq message retry_count = do
    add_dead_letter message retry_count
    acknowledge_message message.id

  -- `handleFailedMessage`
  unfoldable pub handle_failed_message : Message → Eff W E (Unit {0})
  handle_failed_message message =
      let retry_count = get_retry_count parse_int message in
      if ltb retry_count config.max_retries
      then requeue_message message (retry_count + 1)
      else (if truthy_text (some config.dead_letter_stream)
          then move_to_dlq message retry_count
          else acknowledge_message message.id)

  -- The `catch` that logs an error and goes on.
  abbrev pub log_error : Eff W E (Unit {0}) → W → W
  log_error m w = (m w).1

  abbrev pub sort_out :
      Outcome E (Unit {0}) → Message → List String × List Message → List String × List Message
  sort_out (returned _) message (processed, failed) = (message.id ∷ processed, failed)
  sort_out (threw _) message (processed, failed) = (processed, message ∷ failed)

  -- `processMessages`
  unfoldable pub process_messages : List Message → W → (List String × List Message) × W
  process_messages [] w = (([], []), w)
  process_messages (message ∷ messages) w =
      let (outcome, w1) = process_message message.id message.fields w in
      let (sorted, w2) = process_messages messages w1 in (sort_out outcome message sorted, w2)

  unfoldable pub handle_failed_messages : List Message → W → W
  handle_failed_messages [] w = w
  handle_failed_messages (message ∷ messages) w =
      handle_failed_messages messages (log_error (handle_failed_message message) w)

  abbrev pub acknowledge_all : List String → W → W
  acknowledge_all [] w = w
  acknowledge_all (id ∷ ids) w = log_error (ack (id ∷ ids)) w

  -- `processBatch`; with no message each of its parts does nothing.
  unfoldable pub process_batch : List Message → W → W
  process_batch messages w =
      let ((processed, failed), w1) = process_messages messages w in
      acknowledge_all processed (handle_failed_messages failed w1)
