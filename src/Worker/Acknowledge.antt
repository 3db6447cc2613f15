-- ===== src/Worker/Acknowledge.antt =====
-- When a batch of apps/worker/src/server/lib/worker-base.ts acknowledges a message.
use urlfy_cc.Common.{
  ℕ, ◌+◌, ◌≤◌, ◌<◌, ◌≡◌, refl, false, none, some, String, List, [], ◌∷◌, arith, truthy_text,
  Bool-cases, inl, inr, ltb, ltb→lt,
}
use urlfy_cc.Common.Effects.{Outcome, returned, threw, ◌>>◌}
use urlfy_cc.Worker.{
  Fields, Message, WorkerConfig, WorkerServices, get_retry_count, build_retry_payload, dead_letter,
  handle_failed_message, sort_out, process_messages, handle_failed_messages, acknowledge_all,
  process_batch, add_retry, requeue_message, add_dead_letter, move_to_dlq, get_retry_backoff_ms,
  acknowledge_message, dlq_maxlen,
}
use urlfy_cc.Worker.Ledger.{
  Call, handled, added, note_success, pass_on, recorded, here, Grows, AllHandled, requeued,
  dead_lettered, dropped, IsJustified, Keeps, Keeps-refl, Keeps-trans, reasons_of_handled,
  handled-Grows, handled-Keeps, added-Keeps, acked-Keeps, noted-Contains, bind-Keeps,
}

ltb-false : (a b : ℕ) → ltb a b ≡ false → b ≤ a
ltb-false a b h = ground arith

module _ {W E : Type 0} (services : WorkerServices W E) (config : WorkerConfig)
    (Delivered : Message → Type 0) where
  open services use {parse_int, stringify}

  -- All of the messages were delivered.
  abbrev pub AllDelivered : List Message → Type 0
  AllDelivered [] = Unit
  AllDelivered (m ∷ ms) = Delivered m × AllDelivered ms

  abbrev Kept : List Call → List Call → Type 0
  Kept = Keeps parse_int stringify config Delivered

  abbrev count : Message → ℕ
  count m = get_retry_count parse_int m

  sleep-Kept : (calls : List Call) (r : Outcome E (Unit {0}) × W) → Kept calls (pass_on calls r).1.0
  sleep-Kept calls (r, w) = Keeps-refl parse_int stringify config Delivered calls

  abbrev retry : Message → W → Fields
  retry m w = build_retry_payload (services.now_iso w) m (count m + 1)

  requeue-Kept :
      (m : Message) (calls : List Call) (w : W)
      → Delivered m
      → count m < config.max_retries
      → Kept calls (requeue_message (recorded services) config m (count m + 1) (calls, w)).1.0
  requeue-Kept m calls w there more =
      bind-Keeps parse_int stringify config Delivered calls
        (pass_on calls (services.sleep (get_retry_backoff_ms (count m + 1)) w))
        (λ _.
          add_retry (recorded services) config m (count m + 1)
          >> acknowledge_message (recorded services) config m.id)
        (sleep-Kept calls (services.sleep (get_retry_backoff_ms (count m + 1)) w))
        (λ _ calls1 v _.
          bind-Keeps parse_int stringify config Delivered calls1
            (add_retry (recorded services) config m (count m + 1) (calls1, v))
            (λ _. acknowledge_message (recorded services) config m.id)
            (added-Keeps parse_int stringify config Delivered config.stream (retry m v) calls1
              (services.add config.stream (retry m v) none v))
            (λ u calls' x e.
              acked-Keeps parse_int stringify config Delivered (m.id ∷ []) calls'
                (services.ack (m.id ∷ []) x)
                (
                  requeued m (services.now_iso v) there refl more (
                      noted-Contains parse_int stringify config Delivered
                        (added config.stream (retry m v)) calls1 calls'
                        (services.add config.stream (retry m v) none v) u x e),
                  tt,
                )))

  abbrev letter : Message → W → Fields
  letter m w = dead_letter stringify config m (count m) (services.now_iso w)

  dead_letter-Kept :
      (m : Message) (calls : List Call) (w : W)
      → Delivered m
      → config.max_retries ≤ count m
      → Kept calls (move_to_dlq (recorded services) config m (count m) (calls, w)).1.0
  dead_letter-Kept m calls w there spent =
      bind-Keeps parse_int stringify config Delivered calls
        (add_dead_letter (recorded services) config m (count m) (calls, w))
        (λ _. acknowledge_message (recorded services) config m.id)
        (added-Keeps parse_int stringify config Delivered config.dead_letter_stream (letter m w)
          calls (services.add config.dead_letter_stream (letter m w) (some dlq_maxlen) w))
        (λ u calls' v e.
          acked-Keeps parse_int stringify config Delivered (m.id ∷ []) calls'
            (services.ack (m.id ∷ []) v)
            (
              dead_lettered m (services.now_iso w) there refl spent (
                  noted-Contains parse_int stringify config Delivered
                    (added config.dead_letter_stream (letter m w)) calls calls'
                    (services.add config.dead_letter_stream (letter m w) (some dlq_maxlen) w) u v
                    e),
              tt,
            ))

  failed-Kept :
      (m : Message) (calls : List Call) (w : W)
      → Delivered m
      → Kept calls (handle_failed_message (recorded services) config m (calls, w)).1.0
  unfolding handle_failed_message
  failed-Kept m calls w known = elim (Bool-cases (ltb (count m) config.max_retries)) [
    | inl more ↦ rw more (requeue-Kept m calls w known (ltb→lt _ _ more))
    | inr spent ↦ rw spent (elim (Bool-cases (truthy_text (some config.dead_letter_stream))) [
      | inl there ↦ rw there (dead_letter-Kept m calls w known (ltb-false _ _ spent))
      | inr nowhere ↦ rw nowhere (
          acked-Keeps parse_int stringify config Delivered (m.id ∷ []) calls
            (services.ack (m.id ∷ []) w) (dropped m known refl (ltb-false _ _ spent) nowhere, tt))
    ])
  ]

  all_failed-Kept :
      (ms : List Message) (calls : List Call) (w : W)
      → AllDelivered ms
      → Kept calls (handle_failed_messages (recorded services) config ms (calls, w)).0
  unfolding handle_failed_messages
  all_failed-Kept [] calls w known = Keeps-refl parse_int stringify config Delivered calls
  all_failed-Kept (m ∷ ms) calls w (known, rest) =
      let (r, (calls', w')) = handle_failed_message (recorded services) config m (calls, w) in
      Keeps-trans parse_int stringify config Delivered calls calls' _ (failed-Kept m calls w known)
        (all_failed-Kept ms calls' w' rest)

  sorted-Handled :
      (m : Message) (calls calls' : List Call) (r : Outcome E (Unit {0}) × W)
      (sorted : List String × List Message)
      → Grows (note_success (handled m.id m.fields) calls r).1.0 calls'
      → AllHandled sorted.0 calls'
      → AllHandled
          (sort_out
            (recorded services)
            config
            (note_success (handled m.id m.fields) calls r).0
            m
            sorted).0
          calls'
  sorted-Handled m calls calls' (returned u, w) sorted g h = ((m.fields, g _ (here calls)), h)
  sorted-Handled m calls calls' (threw e, w) sorted g h = h

  processed-Kept :
      (ms : List Message) (calls : List Call) (w : W)
      → (Kept calls (process_messages (recorded services) config ms (calls, w)).1.0)
        × AllHandled
            (process_messages (recorded services) config ms (calls, w)).0.0
            (process_messages (recorded services) config ms (calls, w)).1.0
  unfolding process_messages
  processed-Kept [] calls w = (Keeps-refl parse_int stringify config Delivered calls, tt)
  processed-Kept (m ∷ ms) calls w =
      let r = services.process_message m.id m.fields w in
      let (o, (calls1, w1)) = note_success (handled m.id m.fields) calls r in
      let (kept, all) = processed-Kept ms calls1 w1 in
      (
        Keeps-trans parse_int stringify config Delivered calls calls1 _
            (handled-Keeps parse_int stringify config Delivered m.id m.fields calls r) kept,
        sorted-Handled m calls _ r (process_messages (recorded services) config ms (calls1, w1)).0
            kept.1 all,
      )

  sorted-Delivered :
      (m : Message) (outcome : Outcome E (Unit {0})) (sorted : List String × List Message)
      → Delivered m
      → AllDelivered sorted.1
      → AllDelivered (sort_out (recorded services) config outcome m sorted).1
  sorted-Delivered m (returned u) sorted known rest = rest
  sorted-Delivered m (threw e) sorted known rest = (known, rest)

  failed-Delivered :
      (ms : List Message) (s : List Call × W)
      → AllDelivered ms
      → AllDelivered (process_messages (recorded services) config ms s).0.1
  unfolding process_messages
  failed-Delivered [] s known = tt
  failed-Delivered (m ∷ ms) s (known, rest) =
      let (o, s1) = (recorded services).process_message m.id m.fields s in
      sorted-Delivered m o (process_messages (recorded services) config ms s1).0 known
        (failed-Delivered ms s1 rest)

  acknowledged-Kept :
      (ids : List String) (calls : List Call) (w : W)
      → AllHandled ids calls
      → Kept calls (acknowledge_all (recorded services) config ids (calls, w)).0
  acknowledged-Kept [] calls w h = Keeps-refl parse_int stringify config Delivered calls
  acknowledged-Kept (id ∷ ids) calls w h =
      acked-Keeps parse_int stringify config Delivered (id ∷ ids) calls (services.ack (id ∷ ids) w)
        (reasons_of_handled parse_int stringify config Delivered (id ∷ ids) calls h)

  -- A batch acknowledges no message without a reason: in the ledger of the calls that succeeded, each
  -- acknowledged id was handled before, or is that of a delivered message, of which a copy with one
  -- more retry was added to the stream before while it had retries left, or which had none left and
  -- whose dead letter was added before, or there are no dead letters. Delivered are the messages of
  -- the batch and those that any earlier acknowledgements rest on. Any call may fail at any time.
  pub process_batch-IsJustified :
      (ms : List Message) (calls : List Call) (w : W)
      → AllDelivered ms
      → IsJustified parse_int stringify config Delivered calls
      → IsJustified parse_int stringify config Delivered
          (process_batch (recorded services) config ms (calls, w)).0
  unfolding process_batch
  process_batch-IsJustified ms calls w known before =
      let ((processed, failed), (calls1, w1)) =
        process_messages (recorded services) config ms (calls, w) in
      let (kept1, all) = processed-Kept ms calls w in
      let (calls2, w2) = handle_failed_messages (recorded services) config failed (calls1, w1) in
      let kept2 = all_failed-Kept failed calls1 w1 (failed-Delivered ms (calls, w) known) in
      let kept3 =
        acknowledged-Kept processed calls2 w2 (
          handled-Grows parse_int stringify config Delivered processed calls1 calls2 kept2.1 all) in
      kept3.0 (kept2.0 (kept1.0 before))
