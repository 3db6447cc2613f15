-- ===== src/Redirect/Validator.antt =====
-- `validateLink` of packages/redirect-domain/src/validator.ts.
pub mod Rules
use urlfy_cc.Common.{
  ℕ, Bool, true, false, Option, none, some, String, ltb, leb, if◌then◌else◌, not, ◌&&◌, truthy_text,
  truthy_number, or_else,
}
use urlfy_cc.Redirect.Link.{
  CachedLink, RedirectError, expired, banned, inactive, max_clicks_reached, password_required,
}

pub record LinkValidationResult : Type 0 where
  pub valid : Bool
  pub error : Option RedirectError

-- A comparison with an invalid date is false.
abbrev pub is_before : Option ℕ → ℕ → Bool
is_before none now = false
is_before (some t) now = ltb t now

-- `parse_date` reads a date's text as milliseconds; `none` is an invalid date.
module _ (parse_date : String → Option ℕ) (now : ℕ) where
  -- `link.expiresAt && new Date(link.expiresAt) < new Date()`
  abbrev pub is_expired : CachedLink → Bool
  is_expired link =
      truthy_text link.expires_at && is_before (parse_date (or_else link.expires_at "")) now

  -- `link.maxClicks && link.clicksCount >= link.maxClicks`
  abbrev pub has_reached_max : CachedLink → Bool
  has_reached_max link =
      truthy_number link.max_clicks && leb (or_else link.max_clicks 0) link.clicks_count

  abbrev pub invalid : RedirectError → LinkValidationResult
  invalid e = record { valid = false; error = some e }

  unfoldable pub validate_link : CachedLink → Bool → LinkValidationResult
  validate_link link bypass_password =
      if not link.is_active
      then invalid inactive
      else (if link.is_banned
          then invalid banned
          else (if is_expired link
              then invalid expired
              else (if has_reached_max link
                  then invalid max_clicks_reached
                  else (if truthy_text link.password_hash && not bypass_password
                      then invalid password_required
                      else record { valid = true; error = none }))))
