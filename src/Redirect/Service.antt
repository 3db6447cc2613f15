-- ===== src/Redirect/Service.antt =====
-- `RedirectService` of packages/redirect-domain/src/service.ts and `buildFinalUrl` of
-- packages/redirect-domain/src/url-builder.ts. The platform's URL parser is a parameter.
pub mod Urls
pub mod Follow
use text.Mathlib.Text.{◌==◌ as str_eq}
use urlfy_cc.Common.{
  ℕ, ◌+◌, Bool, true, false, ◌&&◌, ◌||◌, not, Option, none, some, String, List, [], ◌∷◌, map, leb,
  ◌==◌, if◌then◌else◌, truthy_text, or_else,
}
use urlfy_cc.Common.Effects.{Outcome, returned, threw, Eff, pure, ◌>>=◌}
use urlfy_cc.Alias.{codes, matches, alias_path_segment_regex, alias_redirect_path_regex}
use urlfy_cc.Redirect.Link.{CachedLink, RedirectError, not_found, redirect_loop, RedirectResult}
use urlfy_cc.Redirect.Validator.{LinkValidationResult, validate_link}
use urlfy_cc.Redirect.Fetcher.{LinkFetchResult, FetcherDependencies, get_link}

-- What the code uses of the class `URL`; the parser answers `none` where the constructor throws.
pub record UrlApi (Url : Type 0) : Type 0 where
  pub parse : String → Option Url
  pub hostname : Url → String
  pub origin : Url → String
  pub pathname : Url → String
  pub set_param : String → String → Url → Url
  pub to_text : Url → String

-- `toLowerCase` on the characters of a parsed host name, which are ASCII.
abbrev pub lower_code : ℕ → ℕ
lower_code c = if leb b'A' c && leb c b'Z' then c + 32 else c

abbrev pub same_codes : List ℕ → List ℕ → Bool
same_codes [] [] = true
same_codes [] (d ∷ ds) = false
same_codes (c ∷ cs) [] = false
same_codes (c ∷ cs) (d ∷ ds) = (c == d) && same_codes cs ds

-- `SELF_SHORTENER_HOSTS.has(hostname.toLowerCase())`
unfoldable pub is_own_host : String → Bool
is_own_host hostname =
    let name = map lower_code (codes hostname) in
    same_codes name (codes "urlfy.cc") || same_codes name (codes "www.urlfy.cc")

module _ {Url : Type 0} (urls : UrlApi Url) where
  open urls use {parse, hostname, origin, pathname, set_param, to_text}

  abbrev pub set_if_given : String → Option String → Url → Url
  set_if_given name value url =
      if truthy_text value then set_param name (or_else value "") url else url

  abbrev pub with_utms : CachedLink → Option Url → String
  with_utms link none = link.original_url
  with_utms link (some url) = to_text (
      set_if_given "utm_campaign" link.utm_campaign
        (set_if_given "utm_medium" link.utm_medium (set_if_given "utm_source" link.utm_source url)))

  -- `buildFinalUrl`
  unfoldable pub build_final_url : CachedLink → String
  build_final_url link = with_utms link (parse link.original_url)

  abbrev pub has_origin : Url → Option Url → Bool
  has_origin parsed none = false
  has_origin parsed (some app) = str_eq (origin parsed) (origin app)

  -- `isSelfShortenerOrigin`; `app_url` is the variable NEXT_PUBLIC_APP_URL.
  unfoldable pub is_self_shortener_origin : Option String → Url → Bool
  is_self_shortener_origin app_url parsed =
      if is_own_host (hostname parsed)
      then true
      else (if truthy_text app_url then has_origin parsed (parse (or_else app_url "")) else false)

  abbrev pub is_loop : Option String → Option Url → Bool
  is_loop app_url none = false
  is_loop app_url (some parsed) =
      if not (is_self_shortener_origin app_url parsed)
      then false
      else (if matches alias_redirect_path_regex (codes (pathname parsed))
          then true
          else matches alias_path_segment_regex (codes (pathname parsed)))

  -- `isSelfShortenerLoop`
  unfoldable pub is_self_shortener_loop : Option String → String → Bool
  is_self_shortener_loop app_url url = is_loop app_url (parse url)

-- `RedirectResolveInput`, without what is only traced.
pub record RedirectResolveInput : Type 0 where
  pub link_code : String
  pub bypass_password : Option Bool

-- The dependencies that `resolve` calls; the validation reads the clock.
pub record RedirectServiceDependencies (W E : Type 0) : Type 0 where
  pub fetch_link : String → Eff W E LinkFetchResult
  pub build_url : CachedLink → String
  pub validate : CachedLink → Bool → W → LinkValidationResult

abbrev pub refused : Option RedirectError → Option String → RedirectResult
refused e id = record {
  success = false;
  url = none;
  redirect_type = none;
  error = e;
  link_id = id;
  cache_hit = none;
  requires_click_reservation = none;
}

-- The answer to a link that may not be followed, with the validation's error as it stands.
abbrev pub invalid_result : CachedLink → LinkValidationResult → RedirectResult
invalid_result link validation = refused validation.error (some link.id)

abbrev pub is_given : {A : Type 0} → Option A → Bool
is_given none = false
is_given (some _) = true

abbrev pub followed : String → Bool → CachedLink → RedirectResult
followed url hit link = record {
  success = true;
  url = some url;
  redirect_type = some link.redirect_type;
  error = none;
  link_id = some link.id;
  cache_hit = some hit;
  requires_click_reservation = some (is_given link.max_clicks);
}

module _ {W E Url : Type 0} (urls : UrlApi Url) (app_url : Option String)
    (services : RedirectServiceDependencies W E) where
  open services use {fetch_link, build_url, validate}

  unfoldable pub resolve_link : Bool → Bool → CachedLink → W → RedirectResult
  resolve_link bypass hit link w =
      let validation = validate link bypass w in
      let url = build_url link in
      if not validation.valid
      then invalid_result link validation
      else (if is_self_shortener_loop urls app_url url
          then refused (some redirect_loop) (some link.id)
          else followed url hit link)

  abbrev pub resolve_found : Bool → Bool → Option CachedLink → W → RedirectResult
  resolve_found bypass hit none w = refused (some not_found) none
  resolve_found bypass hit (some link) w = resolve_link bypass hit link w

  abbrev pub resolve_fetched : Bool → LinkFetchResult → W → RedirectResult
  resolve_fetched bypass fetched w = resolve_found bypass fetched.cache_hit fetched.link w

  -- `resolve`; its errors are thrown on.
  unfoldable pub resolve : RedirectResolveInput → Eff W E RedirectResult
  resolve input = do
    fetched ← fetch_link input.link_code
    λ w. (returned (resolve_fetched (or_else input.bypass_password false) fetched w), w)

-- `defaultRedirectServiceDependencies`; `clock` is the time of a world.
abbrev pub default_services :
    {W E Url : Type 0}
    → FetcherDependencies W E
    → UrlApi Url
    → (String → Option ℕ)
    → (W → ℕ)
    → RedirectServiceDependencies W E
default_services deps urls parse_date clock = record {
  fetch_link = get_link deps;
  build_url = build_final_url urls;
  validate = λ link bypass w. validate_link parse_date (clock w) link bypass;
}
