-- ===== src/Worker/Retry.antt =====
-- A message of apps/worker/src/server/lib/worker-base.ts through its retries.
use urlfy_cc.Common.{
  ℕ, suc, ◌+◌, ◌≡◌, refl, Option, none, some, String, List, [], ◌∷◌, arith, length, ap, ◌∙◌,
  or_else,
}
use urlfy_cc.Common.JsMap.{get, get-set}
use urlfy_cc.Worker.{
  Field, text, number, Fields, Message, text_or, read_count, get_retry_count, build_retry_payload,
}

-- A stream keeps numbers as text.
abbrev pub as_text : (ℕ → String) → Field → Field
as_text to_text (text s) = text s
as_text to_text (number n) = text (to_text n)

abbrev pub as_read : (ℕ → String) → Fields → Fields
as_read to_text [] = []
as_read to_text ((key, field) ∷ fields) = (key, as_text to_text field) ∷ as_read to_text fields

abbrev pub map_field : (ℕ → String) → Option Field → Option Field
map_field to_text none = none
map_field to_text (some field) = some (as_text to_text field)

get-as_read :
    (to_text : ℕ → String) (key : String) (fields : Fields)
    → get key (as_read to_text fields) ≡ map_field to_text (get key fields)
unfolding get
get-as_read to_text key [] = refl
get-as_read to_text key ((k, f) ∷ fields) = ground (arith, get-as_read to_text key fields)

-- The id that a message had at first.
abbrev pub original_id : Message → String
original_id m = text_or (get "originalId" m.fields) m.id

abbrev pub first_failed_at : Message → String → String
first_failed_at m now = text_or (get "firstFailedAt" m.fields) now

payload_count :
    (now : String) (m : Message) (n : ℕ)
    → get "retryCount" (build_retry_payload now m n) ≡ some (number n)
unfolding build_retry_payload
payload_count now m n =
    get-set "firstFailedAt" "retryCount" _ _
    ∙ get-set "originalId" "retryCount" _ _
    ∙ get-set "retryCount" "retryCount" _ _

payload_origin :
    (now : String) (m : Message) (n : ℕ)
    → get "originalId" (build_retry_payload now m n) ≡ some (text (original_id m))
unfolding build_retry_payload
payload_origin now m n =
    get-set "firstFailedAt" "originalId" _ _ ∙ get-set "originalId" "originalId" _ _

payload_first :
    (now : String) (m : Message) (n : ℕ)
    → get "firstFailedAt" (build_retry_payload now m n) ≡ some (text (first_failed_at m now))
unfolding build_retry_payload
payload_first now m n = get-set "firstFailedAt" "firstFailedAt" _ _

module _ (parse_int : String → Option ℕ) (to_text : ℕ → String) where
  -- The message that the stream gives, under a new id, after the message was requeued at a time.
  abbrev pub requeue : Message → String × String → Message
  requeue m (id, now) = record {
    id = id;
    fields = as_read to_text (build_retry_payload now m (get_retry_count parse_int m + 1));
  }

  abbrev pub requeue_all : Message → List (String × String) → Message
  requeue_all m [] = m
  requeue_all m (step ∷ steps) = requeue_all (requeue m step) steps

  requeue_count :
      (m : Message) (step : String × String)
      → ((n : ℕ) → parse_int (to_text n) ≡ some n)
      → get_retry_count parse_int (requeue m step) ≡ get_retry_count parse_int m + 1
  requeue_count m (id, now) parses =
      ap (read_count parse_int) (
        get-as_read to_text "retryCount" _
        ∙ ap (map_field to_text) (payload_count now m (get_retry_count parse_int m + 1)))
      ∙ ap (λ o. or_else o 0) (parses (get_retry_count parse_int m + 1))

  requeue_origin :
      (m : Message) (step : String × String) → original_id (requeue m step) ≡ original_id m
  requeue_origin m (id, now) =
      ap (λ f. text_or f id)
        (get-as_read to_text "originalId" _
          ∙ ap (map_field to_text) (payload_origin now m (get_retry_count parse_int m + 1)))

  requeue_first :
      (m : Message) (step : String × String) (now : String)
      → first_failed_at (requeue m step) now ≡ first_failed_at m step.1
  requeue_first m (id, then_at) now =
      ap (λ f. text_or f now)
        (get-as_read to_text "firstFailedAt" _
          ∙ ap (map_field to_text) (payload_first then_at m (get_retry_count parse_int m + 1)))

  -- However often a message is requeued, its retries are counted, and it keeps the id that it had at
  -- first and the time of its first failure; the counter is read back as it was written if `parseInt`
  -- reads what `String` prints.
  pub requeue_all_lem :
      (m : Message) (id now : String) (steps : List (String × String)) (later : String)
      → ((n : ℕ) → parse_int (to_text n) ≡ some n)
      → (get_retry_count parse_int (requeue_all m ((id, now) ∷ steps))
          ≡ get_retry_count parse_int m + suc (length steps))
        × (original_id (requeue_all m ((id, now) ∷ steps)) ≡ original_id m)
        × (first_failed_at (requeue_all m ((id, now) ∷ steps)) later ≡ first_failed_at m now)
  requeue_all_lem m id now [] later parses = (
    requeue_count m (id, now) parses,
    requeue_origin m (id, now),
    requeue_first m (id, now) later,
  )
  requeue_all_lem m id now ((id2, now2) ∷ steps) later parses =
      let (counted, origin, first) =
        requeue_all_lem (requeue m (id, now)) id2 now2 steps later parses in
      (
        omega (arith, counted, requeue_count m (id, now) parses),
        origin ∙ requeue_origin m (id, now),
        first ∙ requeue_first m (id, now) now2,
      )
