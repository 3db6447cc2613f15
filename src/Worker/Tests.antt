-- ===== src/Worker/Tests.antt =====
-- Runs and instances for apps/worker/src/server/lib/worker-base.ts.
use package.text.Mathlib.Text.{◌==◌ as str_eq}
use urlfy_cc.Common.{
  ◌⊎◌, inl, inr, ℕ, zero, suc, ◌+◌, ◌≡◌, refl, Option, none, some, String, List, [], ◌∷◌, ap,
  if◌then◌else◌,
}
use urlfy_cc.Common.Effects.{returned, threw}
use urlfy_cc.Common.JsMap.{get}
use urlfy_cc.Worker.{
  Message, WorkerConfig, WorkerServices, make_config, process_messages, handle_failed_message,
  handle_failed_messages, process_batch, text, dead_letter,
}
use urlfy_cc.Worker.Ledger.{acked, added, handled, recorded, IsJustified}
use urlfy_cc.Worker.Acknowledge.{process_batch-IsJustified}

-- Numbers in unary, which are read back.
unary : ℕ → String
unary zero = ""
unary (suc n) = String.◌∷◌ "1" (unary n)

size : String → ℕ
size String.[] = 0
size (String.◌∷◌ c s) = suc (size s)

abbrev read : String → Option ℕ
read s = some (size s)

read-unary : (n : ℕ) → read (unary n) ≡ some n
unfolding unary size
read-unary n = ap some (size-unary n)
  where
    size-unary : (n : ℕ) → size (unary n) ≡ n
    size-unary zero = refl
    size-unary (suc n) = ap suc (size-unary n)

-- The handler fails for one message, and no call to Redis does.
abbrev services : WorkerServices ℕ String
services = record {
  process_message = λ id fields w. if str_eq id "2-0" then (threw "bad", w) else (returned tt, w);
  add = λ stream fields maxlen w. (returned tt, w + 1);
  ack = λ ids w. (returned tt, w);
  sleep = λ ms w. (returned tt, w + ms);
  now_iso = λ w. "now";
  parse_int = read;
  stringify = λ fields. "{}";
}

abbrev config : WorkerConfig
config = make_config "clicks" (some "clicks-dlq") none

abbrev good : Message
good = record { id = "1-0"; fields = [] }

abbrev bad : Message
bad = record { id = "2-0"; fields = ("retryCount", text "111") ∷ [] }

abbrev IsBatched : Message → Type 0
IsBatched m = (m ≡ good) ⊎ (m ≡ bad)

process_batch-IsJustified_example :
    IsJustified read
      (λ fields. "{}")
      config
      IsBatched
      (process_batch (recorded services) config (good ∷ bad ∷ []) ([], 0)).0
process_batch-IsJustified_example =
    process_batch-IsJustified services config IsBatched (good ∷ bad ∷ []) [] 0
      (inl refl, (inr refl, tt)) tt

two_messages :
    (process_batch (recorded services) config (good ∷ bad ∷ []) ([], 0)).0
    ≡ acked ("1-0" ∷ [])
      ∷ acked ("2-0" ∷ [])
      ∷ added "clicks-dlq" (dead_letter (λ fields. "{}") config bad 3 "now")
      ∷ handled "1-0" []
      ∷ []
unfolding process_batch process_messages handle_failed_messages handle_failed_message size get
two_messages = refl

abbrev later_steps : List (String × String)
later_steps = ("4-0", "t2") ∷ []
