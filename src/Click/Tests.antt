-- ===== src/Click/Tests.antt =====
-- Runs and instances for apps/worker/src/workers/analytics-click.worker.ts.
use package.text.Mathlib.Text.{◌==◌ as str_eq}
use urlfy_cc.Common.{
  ℕ, ◌+◌, ◌≡◌, refl, true, false, Bool, String, List, [], ◌∷◌, ◌++◌, any, if◌then◌else◌, none, some,
  ltb, ◌==◌, ap, sym, ◌∙◌,
}
use urlfy_cc.Common.Effects.{Outcome, returned, threw}
use urlfy_cc.Common.JsMap.{get, set}
use urlfy_cc.Worker.{Fields, Message, WorkerConfig, WorkerServices, text, make_config}
use urlfy_cc.Click.Enrich.{
  EventRow, Enrichers, UserAgentData, EnrichedClickEvent, map_enriched_to_row, desktop,
  get_logical_event_id, payload_of, enrich_click_event,
}
use urlfy_cc.Click.{
  LinkClickCount, EnrichedEvent, ClickServices, process_message, process_messages, count_events,
  run_post_commit_effects, update_links, enrich_all, record_batch,
}
use urlfy_cc.Click.Rows.{fresh_rows, rows_for, conflict, CountsRows, DistinctIds}
use urlfy_cc.Click.Once.{CountedOnce, process_messages-CountedOnce}
use urlfy_cc.Click.Twice.{
  SameCounts, redelivered-changes_nothing, IsRepeated, repeated-counts_twice,
}

-- The rows, and the count of each link.
abbrev Database : Type 0
Database = List (EventRow ℕ ℕ) × (String → ℕ)

abbrev chrome : UserAgentData
chrome = record {
  browser = some "Chrome";
  browser_version = none;
  os = none;
  os_version = none;
  device_type = some desktop;
  is_bot = false;
}

-- Times are texts of no length or some.
abbrev enrichers : Enrichers String ℕ ℕ
enrichers = record {
  parse_user_agent = λ s. if str_eq s "?" then threw "agent" else returned chrome;
  hostname = λ url. some url;
  to_number = λ s. 1;
  round_thousand = λ x. x;
  to_date = λ s. if str_eq s "t2" then 2 else 1;
  later = λ a b. ltb b a;
}

abbrev same_time : ℕ → ℕ → Bool
same_time a b = a == b

abbrev roll_back :
    {A : Type 0} → Database → Outcome String A × Database → Outcome String A × Database
roll_back d (returned a, d') = (returned a, d')
roll_back d (threw e, d') = (threw e, d)

-- Redis is the list of the links whose pending clicks were drained.
abbrev services : ClickServices Database (List String) String ℕ ℕ
services = record {
  insert_events =
      λ new d. let out = fresh_rows same_time d.0 new in (returned out, (d.0 ++ out, d.1));
  add_clicks = λ k n t d. (returned tt, (d.0, λ l. d.1 l + (if str_eq k l then n else 0)));
  transaction = λ m d. roll_back d (m d);
  increment_clicks_count = λ code n r. (returned tt, r);
  drain_pending_clicks = λ l n r. (returned tt, l ∷ r);
  invalidate_analytics_cache = λ l r. (threw "down", r);
}

roll_back-commits :
    {A : Type 0} (d d' : Database) (r : Outcome String A × Database) (a : A)
    → roll_back d r ≡ (returned a, d')
    → r ≡ (returned a, d')
roll_back-commits d d' (returned b, c) a h = h
roll_back-commits d d' (threw e, c) a h = cc

roll_back-restores :
    {A : Type 0} (d d' : Database) (r : Outcome String A × Database) (e : String)
    → roll_back d r ≡ (threw e, d')
    → d' ≡ d
roll_back-restores d d' (returned b, c) e h = cc
roll_back-restores d d' (threw x, c) e h = sym (ap (λ r. r.1) h)

laws : CountsRows services same_time (λ d. d.0) (λ d l. true) (λ d l. d.1 l)
laws = record {
  insert-rows = λ new out d d' e.
      let o : fresh_rows same_time d.0 new ≡ out = cc in
      (
        sym o,
        sym (ap (λ (r : Outcome String (List (EventRow ℕ ℕ)) × Database). r.1.0) e)
            ∙ ap (λ o. d.0 ++ o) o,
      );
  insert-clicks = λ new d l. (refl, refl);
  add-clicks =
      λ k n t d d' l e h. ap (λ (r : Outcome String (Unit {0}) × Database). r.1.1 l) (sym e);
  add-rows = λ k n t d. (refl, λ l. refl);
  commits = λ m d d' counts e. roll_back-commits d d' (m d) counts e;
  rolls_back = λ m d d' e h. roll_back-restores d d' (m d) e h;
}

abbrev click : String → String → String → Message
click id event link = record {
  id = id;
  fields =
      ("eventId", text event)
      ∷ ("linkId", text link)
      ∷ ("shortCode", text "abc")
      ∷ ("timestamp", text "t1")
      ∷ [];
}

abbrev empty : Database
empty = ([], λ l. 0)

-- Only the handler of a message is used.
abbrev base : WorkerServices (Database × List String) String
base = record {
  process_message = λ id fields w. (returned tt, w);
  add = λ stream fields maxlen w. (returned tt, w);
  ack = λ ids w. (returned tt, w);
  sleep = λ ms w. (returned tt, w);
  now_iso = λ w. "now";
  parse_int = λ s. none;
  stringify = λ fields. "{}";
}

abbrev config : WorkerConfig
config = make_config "clicks" none none

abbrev three : List Message
three = click "1" "e1" "x" ∷ click "2" "e2" "y" ∷ click "3" "e3" "x" ∷ []

three-DistinctIds : DistinctIds (enrich_all enrichers three).0
unfolding enrich_all get_logical_event_id enrich_click_event get
three-DistinctIds = (refl, refl, (refl, refl, (refl, refl, tt)))

process_messages-CountedOnce_example :
    CountedOnce enrichers services same_time
      (λ d. d.0)
      (λ d l. true)
      (λ d l. d.1 l)
      empty
      (process_messages enrichers services base config three (empty, [])).1.0
process_messages-CountedOnce_example =
    process_messages-CountedOnce enrichers services same_time (λ d. d.0) (λ d l. true)
      (λ d l. d.1 l) laws base config three (empty, []) three-DistinctIds

two_clicks_of_x : (process_messages enrichers services base config three (empty, [])).1.0.1 "x" ≡ 2
unfolding process_messages enrich_all get_logical_event_id enrich_click_event get set fresh_rows
    count_events update_links run_post_commit_effects
two_clicks_of_x = refl

drained_links :
    (process_messages enrichers services base config three (empty, [])).1.1 ≡ "y" ∷ "x" ∷ []
unfolding process_messages enrich_all get_logical_event_id enrich_click_event get set fresh_rows
    count_events update_links run_post_commit_effects
drained_links = refl

abbrev again : Message
again = click "9" "e1" "x"

abbrev again_fields : Fields
again_fields = again.fields

abbrev again_event : EnrichedClickEvent ℕ ℕ
again_event = record {
  link_id = "x";
  short_code = "abc";
  request_id = "e1";
  ip = "";
  user_agent = "";
  visitor_hash = "";
  country = none;
  city = none;
  latitude = none;
  longitude = none;
  agent = chrome;
  referer = none;
  referrer_domain = none;
  utm_source = none;
  utm_medium = none;
  utm_campaign = none;
  utm_content = none;
  utm_term = none;
  timestamp = 1;
}

abbrev stored : Database
stored = (map_enriched_to_row enrichers again_event "e1" ∷ [], λ l. 1)

again-enriched :
    enrich_click_event enrichers
      (get_logical_event_id "9" (payload_of again_fields))
      (payload_of again_fields)
    ≡ returned again_event
unfolding get_logical_event_id enrich_click_event get
again-enriched = refl

again-known :
    any
      (conflict same_time (
        map_enriched_to_row enrichers again_event
          (get_logical_event_id "9" (payload_of again_fields))))
      stored.0
    ≡ true
unfolding get_logical_event_id get
again-known = refl

redelivered-changes_nothing_example :
    SameCounts enrichers services same_time
      (λ d. d.0)
      (λ d l. true)
      (λ d l. d.1 l)
      laws
      stored
      (process_message enrichers services "9" again_fields (stored, [])).1.0
    × ((process_message enrichers services "9" again_fields (stored, [])).1.1 ≡ [])
redelivered-changes_nothing_example =
    redelivered-changes_nothing enrichers services same_time (λ d. d.0) (λ d l. true) (λ d l. d.1 l)
      laws "9" again_fields again_event stored [] again-enriched again-known

abbrev copy : String → EnrichedEvent ℕ ℕ
copy id = record { message = click id "e1" "x"; stream_message_id = "e1"; enriched = again_event }

abbrev copies_counted : List (LinkClickCount ℕ)
copies_counted =
    record { link_id = "x"; count = 2; last_clicked_at = 1; short_code = some "abc" } ∷ []

abbrev after_copies : Database
after_copies =
    (map_enriched_to_row enrichers again_event "e1" ∷ [], λ l. 0 + (if str_eq "x" l then 2 else 0))

copies_commit :
    services.transaction (record_batch enrichers services (copy "1" ∷ copy "2" ∷ [])) empty
    ≡ (returned copies_counted, after_copies)
unfolding fresh_rows count_events update_links get set
copies_commit = refl

copies-IsRepeated :
    IsRepeated enrichers services same_time
      (λ d. d.0)
      (λ d l. true)
      (λ d l. d.1 l)
      laws
      (copy "1")
      (copy "2")
      empty
copies-IsRepeated = record {
  same_id = refl;
  named = refl;
  same_link = refl;
  conflicts = refl;
  new = refl;
}

repeated-counts_twice_example :
    (rows_for "x" after_copies.0 ≡ rows_for "x" empty.0 + 1)
    × (after_copies.1 "x" ≡ empty.1 "x" + 2)
repeated-counts_twice_example =
    repeated-counts_twice enrichers services same_time (λ d. d.0) (λ d l. true) (λ d l. d.1 l) laws
      (copy "1") (copy "2") copies_counted empty after_copies copies-IsRepeated refl copies_commit
