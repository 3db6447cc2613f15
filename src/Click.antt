-- ===== src/Click.antt =====
-- The click worker of apps/worker/src/workers/analytics-click.worker.ts: the events of clicks become
-- rows, and the clicks of each link are counted by the rows that are new.
pub mod Enrich
pub mod Tally
pub mod Rows
pub mod Once
pub mod Twice
mod Tests
use Prim.Native.String.{◌++◌ as ◌<>◌}
use package.text.Mathlib.Text.{◌==◌ as str_eq}
use urlfy_cc.Common.{
  ℕ, ◌+◌, Bool, true, false, Option, none, some, String, List, [], ◌∷◌, ◌++◌, leb, length, map, any,
  keep, if◌then◌else◌, not, truthy_text, or_else,
}
use urlfy_cc.Common.Effects.{Outcome, returned, threw, Eff, pure, ◌>>=◌, ◌>>◌, bind_outcome, catch}
use urlfy_cc.Common.JsMap.{get, set}
use urlfy_cc.Worker
use urlfy_cc.Worker.{Fields, Message, WorkerConfig, WorkerServices}
use urlfy_cc.Click.Enrich.{
  ClickEventStream, EnrichedClickEvent, EventRow, Enrichers, enrich_click_event,
  map_enriched_to_row, payload_of, get_logical_event_id,
}

pub record LinkClickCount (T : Type 0) : Type 0 where
  pub link_id : String
  pub count : ℕ
  pub last_clicked_at : T
  pub short_code : Option String

-- An element of `enrichedEvents`.
pub record EnrichedEvent (F T : Type 0) : Type 0 where
  pub message : Message
  pub stream_message_id : String
  pub enriched : EnrichedClickEvent F T

-- The database within a transaction, which is `D`, and the calls that go to Redis, which is `R`.
-- `insert_events` is the insert of rows that does nothing on a conflict and returns the new ones;
-- `add_clicks` is the update of a link.
pub record ClickServices (D R E F T : Type 0) : Type 0 where
  pub insert_events : List (EventRow F T) → Eff D E (List (EventRow F T))
  pub add_clicks : String → ℕ → T → Eff D E (Unit {0})
  pub transaction : Eff D E (List (LinkClickCount T)) → Eff D E (List (LinkClickCount T))
  pub increment_clicks_count : String → ℕ → Eff R E (Unit {0})
  pub drain_pending_clicks : String → ℕ → Eff R E (Unit {0})
  pub invalidate_analytics_cache : String → Eff R E (Unit {0})

-- The commands on the sets that track the cached analytics of a link.
pub record TrackedKeys (R E : Type 0) : Type 0 where
  pub smembers : String → Eff R E (List String)
  pub del : List String → Eff R E (Unit {0})

-- `CACHE_KEYS.ANALYTICS_KEYS_SET`
abbrev pub analytics_keys_set : String → String
analytics_keys_set link_id = "analytics:keys:" <> link_id

abbrev pub delete_tracked :
    {R E : Type 0} → TrackedKeys R E → String → List String → Eff R E (Unit {0})
delete_tracked redis key [] = pure tt
delete_tracked redis key (k ∷ keys) = redis.del ((k ∷ keys) ++ (key ∷ []))

-- `invalidateAnalyticsCache`, which swallows errors.
unfoldable pub invalidate_analytics_cache_of :
    {R E : Type 0} → TrackedKeys R E → String → Eff R E (Unit {0})
invalidate_analytics_cache_of redis link_id =
    catch
      (redis.smembers (analytics_keys_set link_id)
        >>= delete_tracked redis (analytics_keys_set link_id))
      (λ _. pure tt)

-- `shortCode || undefined`
abbrev pub unless_empty : String → Option String
unless_empty s = if str_eq s "" then none else some s

abbrev pub count_again : {T : Type 0} → (T → T → Bool) → T → LinkClickCount T → LinkClickCount T
count_again later timestamp existing = record existing {
  count = existing.count + 1;
  last_clicked_at =
      if later timestamp existing.last_clicked_at then timestamp else existing.last_clicked_at;
}

module _ {F T : Type 0} where
  abbrev pub one_click : EnrichedClickEvent F T → LinkClickCount T
  one_click enriched = record {
    link_id = enriched.link_id;
    count = 1;
    last_clicked_at = enriched.timestamp;
    short_code = unless_empty enriched.short_code;
  }

  -- The entry of a link after one more event.
  abbrev pub counted_entry :
      (T → T → Bool) → EnrichedClickEvent F T → Option (LinkClickCount T) → LinkClickCount T
  counted_entry later enriched none = one_click enriched
  counted_entry later enriched (some existing) = count_again later enriched.timestamp existing

  -- One round of the loop of `buildLinkClickCounts`.
  abbrev pub count_event :
      (T → T → Bool)
      → List String
      → EnrichedEvent F T
      → List (String × LinkClickCount T)
      → List (String × LinkClickCount T)
  count_event later inserted event counts =
      if any (str_eq event.stream_message_id) inserted
      then set event.enriched.link_id
          (counted_entry later event.enriched (get event.enriched.link_id counts)) counts
      else counts

  unfoldable pub count_events :
      (T → T → Bool)
      → List String
      → List (EnrichedEvent F T)
      → List (String × LinkClickCount T)
      → List (String × LinkClickCount T)
  count_events later inserted [] counts = counts
  count_events later inserted (event ∷ events) counts =
      count_events later inserted events (count_event later inserted event counts)

  -- `buildLinkClickCounts`
  abbrev pub build_link_click_counts :
      (T → T → Bool) → List (EnrichedEvent F T) → List String → List (LinkClickCount T)
  build_link_click_counts later events inserted =
      map (λ entry. entry.1) (count_events later inserted events [])

  -- The ids of the rows that were inserted.
  abbrev pub inserted_ids : List (EventRow F T) → List String
  inserted_ids rows = keep (λ id. not (str_eq id "")) (map (λ row. row.stream_message_id) rows)

  abbrev pub sort_enriched :
      {E : Type 0}
      → Outcome E (EnrichedClickEvent F T)
      → Message
      → String
      → List (EnrichedEvent F T) × List Message
      → List (EnrichedEvent F T) × List Message
  sort_enriched (returned enriched) message id (events, failed) =
      (record { message = message; stream_message_id = id; enriched = enriched } ∷ events, failed)
  sort_enriched (threw _) message id (events, failed) = (events, message ∷ failed)

module _ {E F T : Type 0} (enrichers : Enrichers E F T) where
  abbrev pub row_of : EnrichedEvent F T → EventRow F T
  row_of event = map_enriched_to_row enrichers event.enriched event.stream_message_id

  unfoldable pub enrich_all : List Message → List (EnrichedEvent F T) × List Message
  enrich_all [] = ([], [])
  enrich_all (message ∷ messages) =
      let payload = payload_of message.fields in
      let id = get_logical_event_id message.id payload in
      sort_enriched (enrich_click_event enrichers id payload) message id (enrich_all messages)

module _ {D R E F T : Type 0} (enrichers : Enrichers E F T)
    (services : ClickServices D R E F T) where
  open services use {
    insert_events, add_clicks, transaction, increment_clicks_count, drain_pending_clicks,
    invalidate_analytics_cache,
  }

  -- What `Promise.allSettled` leaves of a call.
  abbrev pub settled : Eff R E (Unit {0}) → R → R
  settled m r = (m r).1

  abbrev pub increment_if_named : Option String → ℕ → R → R
  increment_if_named none count r = r
  increment_if_named (some code) count r =
      if truthy_text (some code) then settled (increment_clicks_count code count) r else r

  -- `runPostCommitEffects`
  unfoldable pub run_post_commit_effects : List (LinkClickCount T) → R → R
  run_post_commit_effects [] r = r
  run_post_commit_effects (c ∷ counts) r = run_post_commit_effects counts (
      settled (invalidate_analytics_cache c.link_id) (
        settled (drain_pending_clicks c.link_id c.count)
          (increment_if_named c.short_code c.count r)))

  -- What one event's transaction makes of the rows that the insert returned.
  abbrev pub count_inserted :
      EnrichedClickEvent F T → List (EventRow F T) → Eff D E (List (LinkClickCount T))
  count_inserted enriched [] = pure []
  count_inserted enriched (row ∷ rows) = do
    add_clicks enriched.link_id 1 enriched.timestamp
    pure (one_click enriched ∷ [])

  abbrev pub record_click : EnrichedClickEvent F T → String → Eff D E (List (LinkClickCount T))
  record_click enriched id =
      insert_events (map_enriched_to_row enrichers enriched id ∷ []) >>= count_inserted enriched

  abbrev pub commit_click :
      Outcome E (List (LinkClickCount T)) × D → R → Outcome E (Unit {0}) × (D × R)
  commit_click (returned counts, d) r = (returned tt, (d, run_post_commit_effects counts r))
  commit_click (threw e, d) r = (threw e, (d, r))

  abbrev pub process_enriched :
      Outcome E (EnrichedClickEvent F T) → String → Eff (D × R) E (Unit {0})
  process_enriched (threw e) id w = (threw e, w)
  process_enriched (returned enriched) id (d, r) =
      commit_click (transaction (record_click enriched id) d) r

  -- `processMessage`
  unfoldable pub process_message : String → Fields → Eff (D × R) E (Unit {0})
  process_message message_id fields =
      let id = get_logical_event_id message_id (payload_of fields) in
      process_enriched (enrich_click_event enrichers id (payload_of fields)) id

  unfoldable pub update_links : List (LinkClickCount T) → Eff D E (Unit {0})
  update_links [] = pure tt
  update_links (c ∷ counts) = do add_clicks c.link_id c.count c.last_clicked_at; update_links counts

  abbrev pub count_rows_inserted :
      List (EnrichedEvent F T) → List (EventRow F T) → Eff D E (List (LinkClickCount T))
  count_rows_inserted events rows =
      let counts = build_link_click_counts enrichers.later events (inserted_ids rows) in
      update_links counts >>= λ _. pure counts

  -- The transaction of a batch.
  abbrev pub record_batch : List (EnrichedEvent F T) → Eff D E (List (LinkClickCount T))
  record_batch events = insert_events (map (row_of enrichers) events) >>= count_rows_inserted events

  abbrev pub commit_batch :
      Outcome E (List (LinkClickCount T)) × D
      → List (EnrichedEvent F T)
      → List Message
      → R
      → (List String × List Message) × (D × R)
  commit_batch (returned counts, d) events failed r =
      ((map (λ event. event.message.id) events, failed), (d, run_post_commit_effects counts r))
  commit_batch (threw e, d) events failed r =
      (([], failed ++ map (λ event. event.message) events), (d, r))

  abbrev pub process_events :
      List (EnrichedEvent F T) × List Message → D × R → (List String × List Message) × (D × R)
  process_events ([], failed) w = (([], failed), w)
  process_events (event ∷ events, failed) (d, r) =
      commit_batch (transaction (record_batch (event ∷ events)) d) (event ∷ events) failed r

  -- `processMessages`, which overrides that of the worker base; that one needs of `base` only the
  -- handler of a message, which is the one above.
  unfoldable pub process_messages :
      WorkerServices (D × R) E
      → WorkerConfig
      → List Message
      → D × R
      → (List String × List Message) × (D × R)
  process_messages base config messages w =
      if leb (length messages) 1
      then Worker.process_messages (record base { process_message = process_message }) config
          messages w
      else process_events (enrich_all enrichers messages) w
