-- ===== src/Click/Enrich.antt =====
-- The events of apps/worker/src/workers/analytics-click.worker.ts: the payload of a message, what
-- enriches it, the row that it becomes, and the id that tells it from others.
use package.text.Mathlib.Text.{◌==◌ as str_eq}
use urlfy_cc.Common.{Bool, Option, none, some, String, if◌then◌else◌, truthy_text, or_else}
use urlfy_cc.Common.Effects.{Outcome, returned, threw}
use urlfy_cc.Common.JsMap.{get}
use urlfy_cc.Worker.{Fields, Field, text, number, text_or}

pub record ClickEventStream : Type 0 where
  pub event_id : Option String
  pub original_id : Option String
  pub link_id : String
  pub short_code : String
  pub visitor_hash : String
  pub country : String
  pub city : String
  pub latitude : String
  pub longitude : String
  pub user_agent : String
  pub referer : Option String
  pub utm_source : Option String
  pub utm_medium : Option String
  pub utm_campaign : Option String
  pub utm_content : Option String
  pub utm_term : Option String
  pub timestamp : String

abbrev pub text_field : Option Field → Option String
text_field (some (text s)) = some s
text_field (some (number n)) = none
text_field none = none

-- A message's payload read as a `ClickEventStream`; a required field is there by its type.
abbrev pub payload_of : Fields → ClickEventStream
payload_of fields = record {
  event_id = text_field (get "eventId" fields);
  original_id = text_field (get "originalId" fields);
  link_id = text_or (get "linkId" fields) "";
  short_code = text_or (get "shortCode" fields) "";
  visitor_hash = text_or (get "visitorHash" fields) "";
  country = text_or (get "country" fields) "";
  city = text_or (get "city" fields) "";
  latitude = text_or (get "latitude" fields) "";
  longitude = text_or (get "longitude" fields) "";
  user_agent = text_or (get "userAgent" fields) "";
  referer = text_field (get "referer" fields);
  utm_source = text_field (get "utmSource" fields);
  utm_medium = text_field (get "utmMedium" fields);
  utm_campaign = text_field (get "utmCampaign" fields);
  utm_content = text_field (get "utmContent" fields);
  utm_term = text_field (get "utmTerm" fields);
  timestamp = text_or (get "timestamp" fields) "";
}

-- `getLogicalEventId`
unfoldable pub get_logical_event_id : String → ClickEventStream → String
get_logical_event_id message_id payload =
    if truthy_text payload.event_id
    then or_else payload.event_id ""
    else (if truthy_text payload.original_id then or_else payload.original_id "" else message_id)

pub data DeviceType : Type 0 where
  desktop mobile tablet : DeviceType

pub record UserAgentData : Type 0 where
  pub browser : Option String
  pub browser_version : Option String
  pub os : Option String
  pub os_version : Option String
  pub device_type : Option DeviceType
  pub is_bot : Bool

-- `EnrichedClickEvent`, with floating-point numbers `F` and dates `T`.
pub record EnrichedClickEvent (F T : Type 0) : Type 0 where
  pub link_id : String
  pub short_code : String
  pub request_id : String
  pub ip : String
  pub user_agent : String
  pub visitor_hash : String
  pub country : Option String
  pub city : Option String
  pub latitude : Option F
  pub longitude : Option F
  pub agent : UserAgentData
  pub referer : Option String
  pub referrer_domain : Option String
  pub utm_source : Option String
  pub utm_medium : Option String
  pub utm_campaign : Option String
  pub utm_content : Option String
  pub utm_term : Option String
  pub timestamp : T

-- A row of `analytics_events`.
pub record EventRow (F T : Type 0) : Type 0 where
  pub stream_message_id : String
  pub link_id : String
  pub visitor_hash : String
  pub country : Option String
  pub city : Option String
  pub latitude : Option F
  pub longitude : Option F
  pub agent : UserAgentData
  pub referrer : Option String
  pub referrer_domain : Option String
  pub utm_source : Option String
  pub utm_medium : Option String
  pub utm_campaign : Option String
  pub utm_content : Option String
  pub utm_term : Option String
  pub created_at : T

-- The parser of user agents, which may throw; the host of an address, if the platform can read it;
-- `Number`; `Math.round` of a thousand times; the platform's dates and `>` on them.
pub record Enrichers (E F T : Type 0) : Type 0 where
  pub parse_user_agent : String → Outcome E UserAgentData
  pub hostname : String → Option String
  pub to_number : String → F
  pub round_thousand : F → F
  pub to_date : String → T
  pub later : T → T → Bool

module _ {E F T : Type 0} (enrichers : Enrichers E F T) where
  open enrichers use {parse_user_agent, hostname, to_number, round_thousand, to_date}

  -- `extractDomain`, of a referrer that is there.
  abbrev pub extract_domain : Option String → Option String
  extract_domain none = none
  extract_domain (some url) = if str_eq url "" then none else hostname url

  abbrev pub coordinate : String → Option F
  coordinate s = if str_eq s "" then none else some (to_number s)

  abbrev pub null_if_empty : String → Option String
  null_if_empty s = if str_eq s "" then none else some s

  abbrev pub enriched_with :
      Outcome E UserAgentData → String → ClickEventStream → Outcome E (EnrichedClickEvent F T)
  enriched_with (threw e) id event = threw e
  enriched_with (returned agent) id event = returned (record {
    link_id = event.link_id;
    short_code = event.short_code;
    request_id = id;
    ip = "";
    user_agent = event.user_agent;
    visitor_hash = event.visitor_hash;
    country = null_if_empty event.country;
    city = null_if_empty event.city;
    latitude = coordinate event.latitude;
    longitude = coordinate event.longitude;
    agent = agent;
    referer = event.referer;
    referrer_domain = extract_domain event.referer;
    utm_source = event.utm_source;
    utm_medium = event.utm_medium;
    utm_campaign = event.utm_campaign;
    utm_content = event.utm_content;
    utm_term = event.utm_term;
    timestamp = to_date event.timestamp;
  })

  -- `enrichClickEvent`
  unfoldable pub enrich_click_event : String → ClickEventStream → Outcome E (EnrichedClickEvent F T)
  enrich_click_event id event = enriched_with (parse_user_agent event.user_agent) id event

  abbrev pub scaled : Option F → Option F
  scaled none = none
  scaled (some x) = some (round_thousand x)

  -- `mapEnrichedToRow`
  abbrev pub map_enriched_to_row : EnrichedClickEvent F T → String → EventRow F T
  map_enriched_to_row enriched id = record {
    stream_message_id = id;
    link_id = enriched.link_id;
    visitor_hash = enriched.visitor_hash;
    country = enriched.country;
    city = enriched.city;
    latitude = scaled enriched.latitude;
    longitude = scaled enriched.longitude;
    agent = enriched.agent;
    referrer = enriched.referer;
    referrer_domain = enriched.referrer_domain;
    utm_source = enriched.utm_source;
    utm_medium = enriched.utm_medium;
    utm_campaign = enriched.utm_campaign;
    utm_content = enriched.utm_content;
    utm_term = enriched.utm_term;
    created_at = enriched.timestamp;
  }
