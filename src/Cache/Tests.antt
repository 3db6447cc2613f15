-- ===== src/Cache/Tests.antt =====
-- Runs and instances for packages/redirect-domain/src/cache-service.ts.
use urlfy_cc.Common.{
  ℕ, ◌+◌, ◌*◌, ◌<◌, ◌≡◌, refl, true, false, none, some, String, [], ◌∷◌, ◌⊎◌, ◌↔◌, arith,
}
use urlfy_cc.Common.Effects.{returned, threw}
use urlfy_cc.Redirect.Link.{CachedLink, found_302}
use urlfy_cc.Redirect.Fetcher
use urlfy_cc.Redirect.Fetcher.{LinkState, FetcherDependencies, fetch_result, banned_link}
use urlfy_cc.Cache.Keys.{link_key}
use urlfy_cc.Cache.Script.{ScriptCommands, LinkJson, increment_clicks_lua, add_clicks_to}
use urlfy_cc.Cache.Refresh.{should_trigger_early_refresh, early_refresh_iff}
use urlfy_cc.Cache.Scan.{Walk, last, page_then, scan_keys, scan_keys-walks}
use urlfy_cc.Cache.{
  ban, set_link, set_banned, get_link_state, invalidate_link_and_qr, invalidate_link, invalidate_qr,
  invalidate_and_ban, link_state, with_timestamp, increment_clicks_count, parse_cached_link,
}
use urlfy_cc.Cache.Codec.{stringify, parse, parse-stringify, stringify-text}
use urlfy_cc.Cache.Memory.{Store, value, write, redis, laws}
use urlfy_cc.Cache.States.{expected, MarkFails, invalidated-reads, with_cache, banned-stops}
use urlfy_cc.Cache.Stored.{RefreshedEarly, stored-reads, ScriptLaws}

abbrev commands : ScriptCommands Store
commands = record { get = λ w key. w key; ttl = λ w key. 60; setex = λ key ttl v w. write key v w }

abbrev json : LinkJson String
json = record { decode = parse; encode = stringify }

script : ScriptLaws redis value laws commands json
script = record {
  eval-runs = λ f w w' n e. e;
  get-value = λ w key. refl;
  setex-value = λ key ttl v w j. refl;
  decode-stringify = parse-stringify;
  parse-encode = parse-stringify;
  encode-text = stringify-text;
}

abbrev link : CachedLink
link = record {
  id = "l1";
  original_url = "https://example.org";
  redirect_type = found_302;
  is_active = true;
  is_banned = false;
  expires_at = none;
  max_clicks = some 9;
  clicks_count = 4;
  password_hash = none;
  utm_source = some "mail";
  utm_medium = none;
  utm_campaign = none;
  cached_at = none;
}

abbrev empty : Store
empty key = none

abbrev cached : Store
cached = write (link_key "abc") (stringify link) empty

abbrev banned : Store
banned = (invalidate_and_ban redis "abc" cached).1

ban-answered : invalidate_and_ban redis "abc" cached ≡ (returned tt, banned)
unfolding invalidate_link_and_qr invalidate_link invalidate_qr set_banned
ban-answered = refl

abbrev banned_state : LinkState
banned_state = expected (some ban)

banned-read : get_link_state redis true "abc" banned ≡ (returned banned_state, banned)
unfolding invalidate_link_and_qr invalidate_link invalidate_qr set_banned get_link_state
banned-read = refl

invalidated-reads_example :
    (banned_state ≡ expected (some ban)) ⊎ MarkFails redis value laws "abc" (some ban)
invalidated-reads_example =
    invalidated-reads redis value laws "abc" (some ban) true cached banned banned banned_state
      ban-answered banned-read

-- The services besides the cache are not asked.
abbrev deps : FetcherDependencies Store String
deps = record {
  get_link_state = λ code w. (threw "unused", w);
  get_cached_link = λ code w. (threw "unused", w);
  set_link = λ code l w. (threw "unused", w);
  set_not_found = λ code w. (threw "unused", w);
  find_by_code = λ code w. (threw "database", w);
  is_code_free = λ code w. (threw "database", w);
  acquire = λ key ttl w. (threw "lock", w);
  release = λ key w. (threw "lock", w);
  execute = λ op w. op w;
  sleep = λ ms w. (returned tt, w);
  jitter = λ w. 0;
  get_pending_clicks = λ id w. 0;
}

banned-stops_example :
    (Fetcher.get_link (with_cache redis value laws deps) "abc" banned
      ≡ (returned (fetch_result true (some banned_link)), banned))
    ⊎ MarkFails redis value laws "abc" (some ban)
banned-stops_example =
    banned-stops redis value laws deps "abc" cached banned banned banned_state ban-answered
      banned-read

abbrev stored : Store
stored = (set_link redis "abc" link empty).1

link-stored : set_link redis "abc" link empty ≡ (returned tt, stored)
unfolding set_link
link-stored = refl

abbrev stored_state : LinkState
stored_state = link_state redis 0 0 (some (with_timestamp redis link 5))

stored-read : get_link_state redis false "abc" stored ≡ (returned stored_state, stored)
unfolding set_link get_link_state parse_cached_link
stored-read =
    rw (stringify-text (with_timestamp redis link 5))
      (rw (parse-stringify (with_timestamp redis link 5)) refl)

stored-reads_example :
    (stored_state ≡ link_state redis 0 0 (some (with_timestamp redis link 5)))
    ⊎ ((stored_state ≡ link_state redis 0 0 none) × RefreshedEarly redis value laws false 5)
stored-reads_example =
    stored-reads redis value laws false "abc" link 4 empty stored stored stored_state refl
      link-stored stored-read

abbrev counted : Store
counted = write (link_key "abc") (stringify (add_clicks_to link 3)) cached

abbrev counted_state : LinkState
counted_state = link_state redis 0 0 (some (add_clicks_to link 3))

three-counted :
    increment_clicks_count redis commands json "abc" 3 cached ≡ (returned (some 7), counted)
unfolding increment_clicks_count increment_clicks_lua
three-counted = rw (parse-stringify link) refl

counted-read : get_link_state redis false "abc" counted ≡ (returned counted_state, counted)
unfolding get_link_state parse_cached_link
counted-read =
    rw (stringify-text (add_clicks_to link 3)) (rw (parse-stringify (add_clicks_to link 3)) refl)

early_refresh_iff_example :
    (should_trigger_early_refresh (some 1) 3600 3240002 0 ≡ true)
    ↔ ((at : ℕ) × (some 1 ≡ some at) × (0 < at) × (at + 3600 * 900 < 3240002) × (◌≡◌ {A = ℕ} 0 0))
early_refresh_iff_example = early_refresh_iff (some 1) 3600 3240002 0 (omega arith)

two_pages : Walk redis.scan "link:*" 100 2 "0" empty ("a" ∷ "b" ∷ []) empty
two_pages =
    page_then 1 "0" "7" empty empty empty ("a" ∷ []) ("b" ∷ []) refl refl
      (last "7" empty empty ("b" ∷ []) refl)

scan_keys-walks_example :
    scan_keys redis.scan "link:*" 100 5 empty ≡ (returned (some ("a" ∷ "b" ∷ [])), empty)
scan_keys-walks_example =
    scan_keys-walks redis.scan "link:*" 100 2 empty empty ("a" ∷ "b" ∷ []) 5 two_pages (omega arith)
