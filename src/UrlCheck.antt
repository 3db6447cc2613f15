-- ===== src/UrlCheck.antt =====
-- `BannedDomainsCache` of apps/api/src/server/modules/links/services/url-validator.ts: the snapshot of
-- the banned domains, and the checks that an address passes before a link leads to it.
pub mod Hosts
pub mod Safe
pub mod Fresh
pub mod Memory
mod Tests
use package.text.Mathlib.Text.{◌==◌ as str_eq}
use urlfy_cc.Common.{
  ℕ, ◌+◌, ◌-◌, Bool, true, false, ◌&&◌, ◌||◌, not, Option, none, some, String, List, [], ◌∷◌, ◌++◌,
  map, any, keep, ltb, leb, if◌then◌else◌, truthy_text, or_else,
}
use urlfy_cc.Common.Effects.{Outcome, returned, threw, Eff}
use urlfy_cc.Alias.{codes, matches, alias_path_segment_regex, alias_redirect_path_regex}
use urlfy_cc.Redirect.Service.{UrlApi, same_codes, lower_code}
use urlfy_cc.UrlCheck.Hosts.{
  BlockEntry, blocked_shorteners, has_codes, normalize_domain, is_blocked_hostname, is_private_ip,
}

pub data ValidationError : Type 0 where
  invalid_format invalid_protocol shortener_blocked self_shortener_blocked
        banned_domains_unavailable domain_banned url_too_long url_internal_blocked
        url_resolution_failed :
      ValidationError

pub data ValidationResult : Type 0 where
  valid : ValidationResult
  invalid : ValidationError → ValidationResult

-- The fields of `BannedDomainsCache`, without its loader; the domains are a set.
pub record BannedDomains : Type 0 where
  pub blocked_domains : List (List ℕ)
  pub loaded : Bool
  pub last_load : ℕ
  pub has_reliable_snapshot : Bool

abbrev pub no_domains : BannedDomains
no_domains = record {
  blocked_domains = [];
  loaded = false;
  last_load = 0;
  has_reliable_snapshot = false;
}

-- `BannedDomainsReloadResult`, without the status and the message.
pub record ReloadResult : Type 0 where
  pub reloaded : Bool
  pub retained_snapshot : Bool

abbrev pub cache_ttl_ms : ℕ
cache_ttl_ms = 60000

-- `set.add` and `set.delete`
unfoldable pub add_domain : List ℕ → List (List ℕ) → List (List ℕ)
add_domain d ds = if has_codes d ds then ds else ds ++ (d ∷ [])

unfoldable pub delete_domain : List ℕ → List (List ℕ) → List (List ℕ)
delete_domain d ds = keep (λ e. not (same_codes d e)) ds

-- The staging set of the rows.
unfoldable pub stage : List (List ℕ) → List (List ℕ) → List (List ℕ)
stage staging [] = staging
stage staging (row ∷ rows) = stage (add_domain (normalize_domain row) staging) rows

-- `block` and `unblock`
unfoldable pub block : List ℕ → ℕ → BannedDomains → BannedDomains
block domain now c = record {
  blocked_domains = add_domain (normalize_domain domain) c.blocked_domains;
  loaded = true;
  last_load = now;
  has_reliable_snapshot = true;
}

unfoldable pub unblock : List ℕ → BannedDomains → BannedDomains
unblock domain c = record c {
  blocked_domains = delete_domain (normalize_domain domain) c.blocked_domains;
  has_reliable_snapshot = true;
}

-- `isBlocked`
abbrev pub is_blocked : List ℕ → BannedDomains → Bool
is_blocked domain c =
    has_codes (normalize_domain domain) c.blocked_domains
    || has_codes (normalize_domain domain) (map codes blocked_shorteners)

-- The loader of the banned domains, the resolver of host names, the clock, and of an error whether
-- its message has TIMEOUT in it.
pub record ValidatorServices (W E : Type 0) : Type 0 where
  pub loader : Eff W E (List (List ℕ))
  pub resolve_hostname : String → Eff W E (List (List ℕ))
  pub insert_banned : List ℕ → Eff W E (Unit {0})
  pub now : W → ℕ
  pub mentions_timeout : E → Bool

abbrev pub utf16_length : List ℕ → ℕ
utf16_length [] = 0
utf16_length (c ∷ cs) = (if leb 65536 c then 2 else 1) + utf16_length cs

-- The platform: `URL` with its protocol, `isIP` and `BlockList`.
pub record Platform (Url : Type 0) : Type 0 where
  pub urls : UrlApi Url
  pub protocol : Url → String
  pub is_ip : List ℕ → ℕ
  pub check : List BlockEntry → List ℕ → ℕ → Bool

-- `SELF_SHORTENER_HOSTS` of this file.
abbrev pub self_shortener_hosts : List String
self_shortener_hosts = "urlfy.cc" ∷ "www.urlfy.cc" ∷ []

unfoldable pub is_self_shortener_host : String → Bool
is_self_shortener_host hostname =
    has_codes (map lower_code (codes hostname)) (map codes self_shortener_hosts)

module _ {Url : Type 0} (platform : Platform Url) (app_url : Option String) (is_test : Bool) where
  open platform use {urls, protocol, is_ip, check}

  abbrev pub same_origin : Url → Option Url → Bool
  same_origin parsed none = false
  same_origin parsed (some app) = str_eq (urls.origin parsed) (urls.origin app)

  -- `isSelfShortenerOrigin` of this file.
  abbrev pub is_self_origin : Url → Bool
  is_self_origin parsed =
      if is_self_shortener_host (urls.hostname parsed)
      then true
      else (if truthy_text app_url
          then same_origin parsed (urls.parse (or_else app_url ""))
          else false)

  abbrev pub is_self_path : Option Url → Bool
  is_self_path none = false
  is_self_path (some parsed) =
      if not (is_self_origin parsed)
      then false
      else (if matches alias_redirect_path_regex (codes (urls.pathname parsed))
          then true
          else matches alias_path_segment_regex (codes (urls.pathname parsed)))

  -- `isSelfShortenerTarget`
  unfoldable pub is_self_shortener_target : String → Bool
  is_self_shortener_target url = is_self_path (urls.parse url)

  abbrev pub is_http : Url → Bool
  is_http parsed = str_eq (protocol parsed) "http:" || str_eq (protocol parsed) "https:"

  abbrev pub validate_parsed : BannedDomains → String → Option Url → ValidationResult
  validate_parsed c url none = invalid invalid_format
  validate_parsed c url (some parsed) =
      let domain = normalize_domain (codes (urls.hostname parsed)) in
      if not (is_http parsed)
      then invalid invalid_protocol
      else (if is_self_shortener_target url
          then invalid self_shortener_blocked
          else (if has_codes domain (map codes blocked_shorteners)
              then invalid shortener_blocked
              else (if has_codes domain c.blocked_domains then invalid domain_banned else valid)))

  -- `validate`
  unfoldable pub validate : BannedDomains → String → ValidationResult
  validate c url =
      if ltb 2048 (utf16_length (codes url))
      then invalid url_too_long
      else validate_parsed c url (urls.parse url)

  module _ {W E : Type 0} (services : ValidatorServices W E) where
    open services use {loader, resolve_hostname, insert_banned, now, mentions_timeout}

    abbrev pub after_loader :
        BannedDomains → ℕ → Outcome E (List (List ℕ)) × W → ReloadResult × (BannedDomains × W)
    after_loader c at (returned rows, w) = (
      record { reloaded = true; retained_snapshot = false },
      (
        record {
          blocked_domains = stage [] rows;
          loaded = true;
          last_load = at;
          has_reliable_snapshot = true;
        },
        w,
      ),
    )
    after_loader c at (threw e, w) = (
      record { reloaded = false; retained_snapshot = c.has_reliable_snapshot },
      (if c.loaded then record c { last_load = at } else c, w),
    )

    -- `load`; a difference of times below 0 is 0 here, which is in the period too.
    unfoldable pub load : Bool → BannedDomains × W → ReloadResult × (BannedDomains × W)
    load force_reload (c, w) =
        if not force_reload && (c.loaded && ltb (now w - c.last_load) cache_ttl_ms)
        then (record { reloaded = false; retained_snapshot = true }, (c, w))
        else after_loader c (now w) (loader w)

    abbrev pub reload : BannedDomains × W → ReloadResult × (BannedDomains × W)
    reload = load true

    abbrev pub validate_loaded : String → BannedDomains × W → ValidationResult × (BannedDomains × W)
    validate_loaded url (c, w) = (
      if not c.has_reliable_snapshot then invalid banned_domains_unavailable else validate c url,
      (c, w),
    )

    -- `validateAsync`
    unfoldable pub validate_async :
        String → BannedDomains × W → ValidationResult × (BannedDomains × W)
    validate_async url s = validate_loaded url (load false s).1

    abbrev pub judge_addresses : List (List ℕ) → ValidationResult
    judge_addresses [] = invalid url_resolution_failed
    judge_addresses (a ∷ rest) =
        if any (is_private_ip is_ip check) (a ∷ rest) then invalid url_internal_blocked else valid

    abbrev pub after_resolution :
        BannedDomains → Outcome E (List (List ℕ)) × W → ValidationResult × (BannedDomains × W)
    after_resolution c (returned addresses, w) = (judge_addresses addresses, (c, w))
    after_resolution c (threw e, w) =
        (if is_test && mentions_timeout e then valid else invalid url_resolution_failed, (c, w))

    -- The checks of the host, which has been parsed before.
    abbrev pub check_host : Option Url → BannedDomains × W → ValidationResult × (BannedDomains × W)
    check_host none s = (invalid invalid_format, s)
    check_host (some parsed) (c, w) =
        if is_blocked_hostname (codes (urls.hostname parsed))
        then (invalid url_internal_blocked, (c, w))
        else (if is_private_ip is_ip check (codes (urls.hostname parsed))
            then (invalid url_internal_blocked, (c, w))
            else (if is_test
                then (valid, (c, w))
                else after_resolution c (resolve_hostname (urls.hostname parsed) w)))

    abbrev pub check_host_if_valid :
        String → ValidationResult × (BannedDomains × W) → ValidationResult × (BannedDomains × W)
    check_host_if_valid url (invalid e, s) = (invalid e, s)
    check_host_if_valid url (valid, s) = check_host (urls.parse url) s

    -- `validateSafe`
    unfoldable pub validate_safe :
        String → BannedDomains × W → ValidationResult × (BannedDomains × W)
    validate_safe url s = check_host_if_valid url (validate_async url s)

    abbrev pub block_inserted :
        List ℕ
        → Outcome E (Unit {0}) × W
        → BannedDomains
        → Outcome E (Unit {0}) × (BannedDomains × W)
    block_inserted domain (returned _, w) c = (returned tt, (block domain (now w) c, w))
    block_inserted domain (threw e, w) c = (threw e, (c, w))

    -- `blockPersistent`
    abbrev pub block_persistent :
        List ℕ → BannedDomains × W → Outcome E (Unit {0}) × (BannedDomains × W)
    block_persistent domain (c, w) =
        block_inserted (normalize_domain domain) (insert_banned (normalize_domain domain) w) c
