-- ===== src/Links/Secure.antt =====
-- `createLink` of apps/api/src/server/modules/links/services/create-link.ts with the validation of
-- addresses of url-validator.ts beside it.
use urlfy_cc.Common.{Bool, Option, String}
use urlfy_cc.Common.Effects.{returned, Eff}
use urlfy_cc.UrlCheck.{ValidationResult, BannedDomains, ValidatorServices, Platform, validate_safe}
use urlfy_cc.Links.{LinkServices}

module _ {Url W E T : Type 0} (platform : Platform Url) (app_url : Option String) (is_test : Bool)
    (validator : ValidatorServices W E) (links : LinkServices (BannedDomains × W) E T) where
  -- The module's instance of `BannedDomainsCache` is part of the world.
  abbrev pub validated : String → Eff (BannedDomains × W) E ValidationResult
  validated url s =
      let (result, s') = validate_safe platform app_url is_test validator url s in
      (returned result, s')

  abbrev pub with_validator : LinkServices (BannedDomains × W) E T
  with_validator = record links { validate_url_safe = validated }
