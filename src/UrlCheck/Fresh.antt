-- ===== src/UrlCheck/Fresh.antt =====
-- How the snapshot of apps/api/src/server/modules/links/services/url-validator.ts changes.
use urlfy_cc.Common.{
  ℕ, ◌+◌, ◌-◌, ◌<◌, ◌≡◌, refl, ap, ◌∙◌, sym, Bool, true, false, ◌&&◌, ◌≢◌, Option, some, String,
  List, [], ◌∷◌, ◌++◌, ltb, not, Bool-cases, inl, inr, arith, or_true,
}
use urlfy_cc.Common.Effects.{Outcome, returned, threw}
use urlfy_cc.Alias.{codes}
use urlfy_cc.Redirect.Service.{same_codes}
use urlfy_cc.UrlCheck.Safe.{valid-IsAcceptable}
use urlfy_cc.UrlCheck.Hosts.{has_codes, normalize_domain}
use urlfy_cc.UrlCheck.{
  valid, BannedDomains, no_domains, ValidatorServices, Platform, cache_ttl_ms, add_domain, block,
  load, after_loader, validate, validate_async,
}

module _ {Url : Type 0} (platform : Platform Url) (app_url : Option String) (is_test : Bool)
    {W E : Type 0} (services : ValidatorServices W E) where
  -- A domain that is blocked before the list was ever loaded is taken for the whole list: for a
  -- minute, an address is judged against this one domain, whatever the loader would give, and the
  -- list is not loaded.
  pub block_first-hides_list :
      (domain : List ℕ) (at : ℕ) (url : String) (w : W)
      → services.now w < at + cache_ttl_ms
      → validate_async platform app_url is_test services url (block domain at no_domains, w) ≡ (
        validate platform app_url is_test (block domain at no_domains) url,
        (block domain at no_domains, w),
      )
  unfolding validate_async load block
  block_first-hides_list domain at url w soon =
      let recent : ltb (services.now w - at) cache_ttl_ms ≡ true = ground arith in rw recent refl

  any-append_left :
      (d : List ℕ) (xs ys : List (List ℕ)) → has_codes d xs ≡ true → has_codes d (xs ++ ys) ≡ true
  any-append_left d [] ys h = cc
  any-append_left d (x ∷ xs) ys h = elim (Bool-cases (same_codes d x)) [
    | inl same ↦ rw same refl
    | inr other ↦ or_true (same_codes d x) _ (any-append_left d xs ys (rw other at h))
  ]

  add_domain-keeps :
      (d x : List ℕ) (ds : List (List ℕ))
      → has_codes d ds ≡ true
      → has_codes d (add_domain x ds) ≡ true
  unfolding add_domain
  add_domain-keeps d x ds h = elim (Bool-cases (has_codes x ds)) [
    | inl known ↦ rw known h
    | inr new ↦ rw new (any-append_left d ds (x ∷ []) h)
  ]

  -- While the list cannot be loaded: loads that fail, and domains that are blocked by hand.
  pub data Outage : BannedDomains × W → BannedDomains × W → Type 0 where
    here : (s : BannedDomains × W) → Outage s s
    load_fails :
        (force : Bool) (s s' : BannedDomains × W) (e : E)
        → (services.loader s.1).0 ≡ threw e
        → Outage (load platform app_url is_test services force s).1 s'
        → Outage s s'
    blocked_too :
        (domain : List ℕ) (at : ℕ) (s s' : BannedDomains × W)
        → Outage (block domain at s.0, s.1) s'
        → Outage s s'
    waits : (s s' : BannedDomains × W) (w : W) → Outage (s.0, w) s' → Outage s s'

  loader-keeps :
      (d : List ℕ) (c : BannedDomains) (at : ℕ) (r : Outcome E (List (List ℕ)) × W) (e : E)
      → r.0 ≡ threw e
      → has_codes d c.blocked_domains ≡ true
      → has_codes d (after_loader platform app_url is_test services c at r).1.0.blocked_domains
        ≡ true
  loader-keeps d c at (returned rows, w) e h k = cc
  loader-keeps d c at (threw x, w) e h k = elim (Bool-cases c.loaded) [
    | inl old ↦ rw old k
    | inr first ↦ rw first k
  ]

  load-keeps :
      (d : List ℕ) (force : Bool) (s : BannedDomains × W) (e : E)
      → (services.loader s.1).0 ≡ threw e
      → has_codes d s.0.blocked_domains ≡ true
      → has_codes d (load platform app_url is_test services force s).1.0.blocked_domains ≡ true
  unfolding load
  load-keeps d force (c, w) e h k =
      elim (Bool-cases
        (not force && (c.loaded && ltb (services.now w - c.last_load) cache_ttl_ms))) [
          | inl recent ↦ rw recent k
          | inr old ↦ rw old (loader-keeps d c (services.now w) (services.loader w) e h k)
        ]

  Outage-keeps :
      (d : List ℕ) (s s' : BannedDomains × W)
      → Outage s s'
      → has_codes d s.0.blocked_domains ≡ true
      → has_codes d s'.0.blocked_domains ≡ true
  unfolding block
  Outage-keeps d s s' (here t) k = k
  Outage-keeps d s s' (load_fails force t t' e h rest) k =
      Outage-keeps d _ t' rest (load-keeps d force t e h k)
  Outage-keeps d s s' (blocked_too domain at t t' rest) k =
      Outage-keeps d _ t' rest (add_domain-keeps d (normalize_domain domain) t.0.blocked_domains k)
  Outage-keeps d s s' (waits t t' w rest) k = Outage-keeps d _ t' rest k

  -- A domain of the last list that was loaded stays banned for as long as the list cannot be loaded
  -- again, however often that is tried and whatever is blocked besides: an address of it, parsed, is
  -- not accepted.
  pub Outage-refuses :
      (url : String) (parsed : Url) (s s' : BannedDomains × W)
      → platform.urls.parse url ≡ some parsed
      → has_codes (normalize_domain (codes (platform.urls.hostname parsed))) s.0.blocked_domains
        ≡ true
      → Outage s s'
      → validate platform app_url is_test s'.0 url ≢ valid
  Outage-refuses url parsed s s' parses banned outage e =
      let (other, parses', acceptable) = valid-IsAcceptable platform app_url is_test s'.0 url e in
      let same : other ≡ parsed = ground (arith, parses, parses') in
      let d = normalize_domain (codes (platform.urls.hostname parsed)) in
      let still = Outage-keeps d s s' outage banned in
      true_false (
        sym still
        ∙ ap
            (λ u.
              has_codes (normalize_domain (codes (platform.urls.hostname u))) s'.0.blocked_domains)
            (sym same)
        ∙ acceptable.not_banned)
    where
      true_false : true ≡ false → ⊥
      true_false h = cc
