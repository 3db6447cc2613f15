-- ===== src/Redirect/Tests.antt =====
-- Runs and instances for packages/redirect-domain/src: a cache and a database in memory.
use Prim.Native.String.{◌++◌}
use text.Mathlib.Text.{◌==◌ as str_eq}
use urlfy_cc.Common.{
  ℕ, ◌≡◌, refl, ◌↔◌, ◌⊎◌, inl, true, false, Option, none, some, String, arith, if◌then◌else◌,
  truthy_text, ap,
}
use urlfy_cc.Common.Effects.{returned, threw, Eff, Ensures}
use urlfy_cc.Alias.{is_alphanumeric, is_alias_format}
use urlfy_cc.Redirect.Link.{CachedLink, RedirectResult, found_302}
use urlfy_cc.Redirect.Validator.{validate_link}
use urlfy_cc.Redirect.Validator.Rules.{IsOpen, validate_link_iff}
use urlfy_cc.Redirect.Fetcher.{
  FetcherDependencies, fetch_result, fetch_from_database, fetch_with_stampede_protection, by_state,
  get_link,
}
use urlfy_cc.Redirect.Fetcher.Layers.{Explains, get_link-Explains}
use urlfy_cc.Redirect.Fetcher.Pending.{
  not_cached, cached_state, with_clicks, FillsCache, filled-counts_twice,
}
use urlfy_cc.Redirect.Service.{
  UrlApi, RedirectResolveInput, is_own_host, build_final_url, is_self_shortener_origin,
  is_self_shortener_loop, followed, resolve, default_services,
}
use urlfy_cc.Redirect.Service.Follow.{Followed, resolve-success, resolve-follows}

-- The link in the database.
abbrev sample : CachedLink
sample = record {
  id = "l1";
  original_url = "https://example.org/";
  redirect_type = found_302;
  is_active = true;
  is_banned = false;
  expires_at = some "soon";
  max_clicks = some 10;
  clicks_count = 3;
  password_hash = none;
  utm_source = none;
  utm_medium = none;
  utm_campaign = none;
  cached_at = none;
}

-- The world holds the cached link; two clicks are pending.
abbrev World : Type 0
World = Option CachedLink

abbrev memory :
    (Eff World String (Option CachedLink) → Eff World String (Option CachedLink))
    → FetcherDependencies World String
memory execute = record {
  get_link_state =
      λ code w. (returned (elim w [ none ↦ not_cached | some link ↦ cached_state link ]), w);
  get_cached_link = λ code w. (returned w, w);
  set_link = λ code link w. (returned tt, some link);
  set_not_found = λ code w. (returned tt, w);
  find_by_code = λ code w. (returned (some sample), w);
  is_code_free = λ code w. (returned false, w);
  acquire = λ key ttl w. (returned true, w);
  release = λ key w. (returned tt, w);
  execute = execute;
  sleep = λ ms w. (returned tt, w);
  jitter = λ w. 7;
  get_pending_clicks = λ id w. 2;
}

abbrev closed : FetcherDependencies World String
closed = memory (λ op w. op w)

-- The database is not reached.
abbrev down : FetcherDependencies World String
down = memory (λ op w. (threw "down", w))

abbrev soon : String → Option ℕ
soon s = if str_eq s "soon" then some 500 else none

sample_open : IsOpen soon 400 sample
sample_open = record {
  active = refl;
  allowed = refl;
  current = λ s t given named date. ground arith;
  below_max = λ m limit positive. ground arith;
}

validate_link_iff_example :
    ((validate_link soon 400 sample false).valid ≡ true)
    ↔ (IsOpen soon 400 sample × ((truthy_text sample.password_hash ≡ false) ⊎ (false ≡ true)))
validate_link_iff_example = validate_link_iff soon 400 sample false

get_link-Explains_example : Ensures (λ r. Explains closed "abc" r.link) (get_link closed "abc" none)
get_link-Explains_example = get_link-Explains closed "abc" (λ op w x e. (w, e)) none

filled :
    FillsCache closed "abc" sample 10 none none none none
      (some (with_clicks 2 sample))
      (some (with_clicks 2 sample))
filled = record {
  limited = refl;
  looked_up = refl;
  won = refl;
  ran = λ op. refl;
  found = refl;
  written = refl;
  released = refl;
}

filled-counts_twice_example :
    (get_link closed "abc" none
      ≡ (returned (fetch_result false (some (with_clicks 2 sample))), some (with_clicks 2 sample)))
    × (get_link closed "abc" (some (with_clicks 2 sample)) ≡ (
      returned (fetch_result true (some (with_clicks 2 (with_clicks 2 sample)))),
      some (with_clicks 2 sample),
    ))
filled-counts_twice_example =
    filled-counts_twice closed "abc" sample 10 none none none none (some (with_clicks 2 sample))
      (some (with_clicks 2 sample)) (some (with_clicks 2 sample)) filled refl

down_throws : (get_link down "abc" none).0 ≡ threw "down"
unfolding get_link by_state fetch_with_stampede_protection fetch_from_database
down_throws = refl

-- Addresses are pairs of a host and a path.
abbrev pairs : UrlApi (String × String)
pairs = record {
  parse = λ s.
      if str_eq s "https://urlfy.cc/abc"
      then some ("urlfy.cc", "/abc")
      else (if str_eq s "https://example.org/" then some ("example.org", "/") else none);
  hostname = λ u. u.0;
  origin = λ u. "https://" ++ u.0;
  pathname = λ u. u.1;
  set_param = λ name value u. u;
  to_text = λ u. "https://" ++ u.0 ++ u.1;
}

own_host : is_own_host "urlfy.cc" ≡ true
unfolding is_own_host
own_host = refl

abc_alias : is_alias_format "abc" ≡ true
unfolding is_alias_format is_alphanumeric
abc_alias = refl

abbrev asked : RedirectResolveInput
asked = record { link_code = "abc"; bypass_password = none }

sample_url : build_final_url pairs sample ≡ "https://example.org/"
unfolding build_final_url
sample_url = refl

leads_away :
    is_self_shortener_loop pairs none (build_final_url pairs (with_clicks 2 sample)) ≡ false
unfolding is_self_shortener_loop is_self_shortener_origin is_own_host build_final_url
leads_away = refl

found_cached :
    get_link closed "abc" (some sample)
    ≡ (returned (fetch_result true (some (with_clicks 2 sample))), some sample)
unfolding get_link by_state
found_cached = refl

counted_open : IsOpen soon 400 (with_clicks 2 sample)
counted_open = record {
  active = refl;
  allowed = refl;
  current = λ s t given named date. ground arith;
  below_max = λ m limit positive. ground arith;
}

abbrev answer_to_sample : RedirectResult
answer_to_sample =
    followed (build_final_url pairs (with_clicks 2 sample)) true (with_clicks 2 sample)

sample_answered :
    (resolve pairs none (default_services closed pairs soon (λ w. 400)) asked (some sample)).0
    ≡ returned answer_to_sample
sample_answered =
    ap (λ r. r.0)
      (resolve-follows pairs none closed soon (λ w. 400) asked (with_clicks 2 sample) true
        (some sample) (some sample) found_cached counted_open (inl refl) leads_away)

resolve-success_example : Followed pairs none closed soon (λ w. 400) asked answer_to_sample
resolve-success_example =
    resolve-success pairs none closed soon (λ w. 400) asked (some sample) answer_to_sample
      (λ op w x e. (w, e)) sample_answered refl
