-- ===== src/UrlCheck/Safe.antt =====
-- What an address that apps/api/src/server/modules/links/services/url-validator.ts accepts is.
use urlfy_cc.Common.{
  ◌||◌, ℕ, ◌≤◌, ◌≡◌, refl, ap, ◌∙◌, subst, Bool, true, false, Option, none, some, String, List, [],
  ◌∷◌, map, any, ltb, Bool-cases, inl, inr, ◌⊎◌, arith, or_else,
}
use urlfy_cc.Common.Effects.{Outcome, returned, threw}
use urlfy_cc.Alias.{codes}
use urlfy_cc.Redirect.Service.{
  is_own_host, same_codes, lower_code, is_self_shortener_loop, is_self_shortener_origin, is_loop,
  has_origin,
}
use urlfy_cc.UrlCheck.Hosts.{
  blocked_shorteners, has_codes, normalize_domain, is_blocked_hostname, is_private_ip,
}
use urlfy_cc.UrlCheck.{
  is_self_shortener_host, ValidationResult, valid, invalid, BannedDomains, ValidatorServices,
  Platform, utf16_length, is_http, is_self_shortener_target, validate, validate_parsed, load,
  validate_loaded, validate_async, judge_addresses, after_resolution, check_host,
  check_host_if_valid, validate_safe, is_self_path, same_origin,
}

module _ {Url : Type 0} (platform : Platform Url) (app_url : Option String) (is_test : Bool) where
  open platform use {urls, is_ip, check}

  -- The checks of the text and of its parts.
  pub record IsAcceptable (c : BannedDomains) (url : String) (parsed : Url) : Type 0 where
    pub fits : utf16_length (codes url) ≤ 2048
    pub parses : urls.parse url ≡ some parsed
    pub http : is_http platform app_url is_test parsed ≡ true
    pub not_self : is_self_shortener_target platform app_url is_test url ≡ false
    pub no_shortener :
        has_codes (normalize_domain (codes (urls.hostname parsed))) (map codes blocked_shorteners)
        ≡ false
    pub not_banned :
        has_codes (normalize_domain (codes (urls.hostname parsed))) c.blocked_domains ≡ false

  valid_parsed :
      (c : BannedDomains) (url : String) (o : Option Url)
      → urls.parse url ≡ o
      → utf16_length (codes url) ≤ 2048
      → validate_parsed platform app_url is_test c url o ≡ valid
      → (parsed : Url) × (o ≡ some parsed) × IsAcceptable c url parsed
  valid_parsed c url none p short e = cc
  valid_parsed c url (some parsed) p short e = (
    parsed,
    refl,
    record {
      fits = short;
      parses = p;
      http = ground (arith, e);
      not_self = ground (arith, e);
      no_shortener = ground (arith, e);
      not_banned = ground (arith, e);
    },
  )

  pub valid-IsAcceptable :
      (c : BannedDomains) (url : String)
      → validate platform app_url is_test c url ≡ valid
      → (parsed : Url) × (urls.parse url ≡ some parsed) × IsAcceptable c url parsed
  unfolding validate
  valid-IsAcceptable c url e = elim (Bool-cases (ltb 2048 (utf16_length (codes url)))) [
    | inl long ↦ absurd (ground (arith, e, long))
    | inr short ↦ valid_parsed c url (urls.parse url) refl (ground (arith, short)) (rw short at e)
  ]

  module _ {W E : Type 0} (services : ValidatorServices W E) where
    open services use {resolve_hostname}

    -- The host is no internal name and no private address, and resolves to public addresses only,
    -- of which there is one; in a test environment it is not resolved.
    pub record IsPublicHost (host : String) : Type 0 where
      pub not_internal : is_blocked_hostname (codes host) ≡ false
      pub not_private : is_private_ip is_ip check (codes host) ≡ false
      pub resolves :
          (is_test ≡ true)
          ⊎ ((first : List ℕ) × (others : List (List ℕ)) × (v : W) × ((resolve_hostname host v).0
                ≡ returned (first ∷ others))
              × (any (is_private_ip is_ip check) (first ∷ others) ≡ false))

    public_addresses :
        (addresses : List (List ℕ))
        → judge_addresses platform app_url is_test services addresses ≡ valid
        → (first : List ℕ) × (others : List (List ℕ)) × (addresses ≡ first ∷ others)
          × (any (is_private_ip is_ip check) (first ∷ others) ≡ false)
    public_addresses [] e = cc
    public_addresses (a ∷ rest) e = (a, rest, refl, ground (arith, e))

    resolved :
        (c : BannedDomains) (host : String) (v : W) (r : Outcome E (List (List ℕ)) × W)
        → is_test ≡ false
        → resolve_hostname host v ≡ r
        → (after_resolution platform app_url is_test services c r).0 ≡ valid
        → (first : List ℕ) × (others : List (List ℕ)) × (v : W) × ((resolve_hostname host v).0
            ≡ returned (first ∷ others))
          × (any (is_private_ip is_ip check) (first ∷ others) ≡ false)
    resolved c host v (threw x, w) live got e = absurd (ground (arith, e, live))
    resolved c host v (returned addresses, w) live got e =
        let (first, others, same, public) = public_addresses addresses e in
        (first, others, v, ap (λ r. r.0) got ∙ ap (λ l. returned l) same, public)

    host-IsPublicHost :
        (c : BannedDomains) (parsed : Url) (w : W)
        → (check_host platform app_url is_test services (some parsed) (c, w)).0 ≡ valid
        → IsPublicHost (urls.hostname parsed)
    host-IsPublicHost c parsed w e =
        elim (Bool-cases (is_blocked_hostname (codes (urls.hostname parsed)))) [
          | inl bad ↦ absurd (ground (arith, e, bad))
          | inr named ↦
              elim (Bool-cases (is_private_ip is_ip check (codes (urls.hostname parsed)))) [
                | inl private ↦ absurd (ground (arith, e, named, private))
                | inr public ↦ elim (Bool-cases is_test) [
                  | inl test ↦ record {
                    not_internal = named;
                    not_private = public;
                    resolves = inl test;
                  }
                  | inr live ↦ record {
                    not_internal = named;
                    not_private = public;
                    resolves = inr (
                        resolved c (urls.hostname parsed) w
                          (resolve_hostname (urls.hostname parsed) w) live refl
                          (ground (arith, e, named, public, live)));
                  }
                ]
              ]
        ]

    checked_after :
        (url : String) (r : ValidationResult × (BannedDomains × W))
        → (check_host_if_valid platform app_url is_test services url r).0 ≡ valid
        → (r.0 ≡ valid)
          × ((check_host platform app_url is_test services (urls.parse url) r.1).0 ≡ valid)
    checked_after url (invalid x, s) e = cc
    checked_after url (valid, s) e = (refl, e)

    loaded-valid :
        (url : String) (s : BannedDomains × W)
        → (validate_loaded platform app_url is_test services url s).0 ≡ valid
        → (s.0.has_reliable_snapshot ≡ true)
          × (validate platform app_url is_test s.0 url ≡ valid)
          × ((validate_loaded platform app_url is_test services url s).1 ≡ s)
    loaded-valid url (c, w) e = elim (Bool-cases c.has_reliable_snapshot) [
      | inl reliable ↦ (reliable, ground (arith, e, reliable), refl)
      | inr unknown ↦ absurd (ground (arith, e, unknown))
    ]

    -- An address that is accepted has at most 2048 units of text and can be parsed, has the protocol
    -- http or https, does not lead to the shortener's own redirects, and its domain is neither
    -- another shortener nor banned by the snapshot, which is reliable, as it stands after it was
    -- loaded; its host is no internal name and no private address, and, but in a test environment,
    -- resolves to one address or more, none of them private.
    pub accepted-IsSafe :
        (url : String) (s : BannedDomains × W)
        → (validate_safe platform app_url is_test services url s).0 ≡ valid
        → (parsed : Url) × ((load platform app_url is_test services false
              s).1.0.has_reliable_snapshot
            ≡ true)
          × IsAcceptable (load platform app_url is_test services false s).1.0 url parsed
          × IsPublicHost (urls.hostname parsed)
    unfolding validate_safe validate_async
    accepted-IsSafe url s e =
        let loaded = (load platform app_url is_test services false s).1 in
        let (text_ok, host_ok) =
          checked_after url (validate_loaded platform app_url is_test services url loaded) e in
        let (reliable, accepted, same) = loaded-valid url loaded text_ok in
        let (parsed, parses, acceptable) = valid-IsAcceptable loaded.0 url accepted in
        (
          parsed,
          reliable,
          acceptable,
          host-IsPublicHost loaded.0 parsed loaded.1 (
              subst
                (λ (o : Option Url).
                  (check_host platform app_url is_test services o loaded).0 ≡ valid)
                parses
                (subst
                  (λ (t : BannedDomains × W).
                    (check_host platform app_url is_test services (urls.parse url) t).0 ≡ valid)
                  same host_ok)),
        )

  same_origin_eq :
      (parsed : Url) (o : Option Url)
      → same_origin platform app_url is_test parsed o ≡ has_origin urls parsed o
  same_origin_eq parsed none = refl
  same_origin_eq parsed (some app) = refl

  last_or : (a b : Bool) → (a || (b || false)) ≡ (a || b)
  last_or true b = refl
  last_or false true = refl
  last_or false false = refl

  -- The two modules name the same hosts as the shortener's own.
  own_host_eq : (host : String) → is_self_shortener_host host ≡ is_own_host host
  unfolding is_self_shortener_host is_own_host
  own_host_eq host =
      let name = map lower_code (codes host) in
      last_or (same_codes name (codes "urlfy.cc")) (same_codes name (codes "www.urlfy.cc"))

  same_path : (o : Option Url) → is_self_path platform app_url is_test o ≡ is_loop urls app_url o
  unfolding is_self_shortener_origin
  same_path none = refl
  same_path (some parsed) =
      rw (own_host_eq (urls.hostname parsed))
        (rw (same_origin_eq parsed (urls.parse (or_else app_url ""))) refl)

  -- The check that a new address passes and the check of the redirect path for a loop are the same,
  -- for the same address of the application: what is accepted is not refused there as it stands.
  pub target-eq-loop :
      (url : String)
      → is_self_shortener_target platform app_url is_test url
        ≡ is_self_shortener_loop urls app_url url
  unfolding is_self_shortener_target is_self_shortener_loop
  target-eq-loop url = same_path (urls.parse url)
