-- ===== src/Redirect/Link.antt =====
-- The types of packages/contracts/src/redirect.types.ts.
use urlfy_cc.Common.{ℕ, Bool, Option, String}

pub data RedirectType : Type 0 where
  moved_301 found_302 : RedirectType

-- `CachedLink`; `expiresAt` is the text of a date.
pub record CachedLink : Type 0 where
  pub id : String
  pub original_url : String
  pub redirect_type : RedirectType
  pub is_active : Bool
  pub is_banned : Bool
  pub expires_at : Option String
  pub max_clicks : Option ℕ
  pub clicks_count : ℕ
  pub password_hash : Option String
  pub utm_source : Option String
  pub utm_medium : Option String
  pub utm_campaign : Option String
  pub cached_at : Option ℕ

-- `max_clicks_reached` is `'MAX_CLICKS'`.
pub data RedirectError : Type 0 where
  not_found expired banned inactive max_clicks_reached password_required redirect_loop :
      RedirectError

pub record RedirectResult : Type 0 where
  pub success : Bool
  pub url : Option String
  pub redirect_type : Option RedirectType
  pub error : Option RedirectError
  pub link_id : Option String
  pub cache_hit : Option Bool
  pub requires_click_reservation : Option Bool
