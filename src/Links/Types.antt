-- ===== src/Links/Types.antt =====
-- The types of the links API: packages/contracts and
-- apps/api/src/server/modules/links/link-errors.ts.
use urlfy_cc.Common.{ℕ, Bool, Option, String, List}
use urlfy_cc.UrlCheck.{ValidationError}

-- The codes of `LinkDomainErrorCode` that are thrown here; those of a validation are its errors.
pub data LinkErrorCode : Type 0 where
  link_not_found alias_unavailable auth_required shortcode_generation_failed invalid_alias_format
        password_too_weak :
      LinkErrorCode
  url_refused : ValidationError → LinkErrorCode

pub record CreateLinkInput : Type 0 where
  pub url : String
  pub custom_alias : Option String
  pub password : Option String
  pub redirect_type : Option ℕ
  pub max_clicks : Option ℕ
  pub expires_at : Option String
  pub meta_title : Option String
  pub meta_description : Option String
  pub meta_image : Option String
  pub utm_source : Option String
  pub utm_medium : Option String
  pub utm_campaign : Option String
  pub tags : Option (List String)
  pub notes : Option String

pub record MetaTags : Type 0 where
  pub title : Option String
  pub description : Option String
  pub image : Option String

-- The columns of `links` that an insert gives; dates are `T`.
pub record NewLink (T : Type 0) : Type 0 where
  pub id : String
  pub user_id : Option String
  pub original_url : String
  pub short_code : String
  pub redirect_type : ℕ
  pub clicks_count : ℕ
  pub is_active : Bool
  pub is_banned : Bool
  pub max_clicks : Option ℕ
  pub password_hash : Option String
  pub expires_at : Option T
  pub meta : MetaTags
  pub utm_source : Option String
  pub utm_medium : Option String
  pub utm_campaign : Option String
  pub tags : Option (List String)
  pub notes : Option String
  pub created_by_ip_hash : Option String
  pub created_at : T
  pub updated_at : T

-- A row of `links`: those columns and the others.
pub record Link (T : Type 0) : Type 0 where
  pub new : NewLink T
  pub banned_at : Option T
  pub banned_reason : Option String
  pub last_clicked_at : Option T
  pub qr_generated_at : Option T
  pub deleted_at : Option T
