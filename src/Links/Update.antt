-- ===== src/Links/Update.antt =====
-- apps/api/src/server/modules/links/services/update-link.ts: `updateLink`, with `getLinkById` of
-- get-link.ts. A field of the input is `none` if it is undefined and `some none` if it is null.
pub mod Renamed
use package.text.Mathlib.Text.{◌==◌ as str_eq}
use urlfy_cc.Common.{
  ℕ, ◌&&◌, Bool, true, false, not, Option, none, some, String, List, ltb, if◌then◌else◌,
  truthy_text, or_else,
}
use urlfy_cc.Common.Effects.{Eff, pure, ◌>>=◌, ◌>>◌}
use urlfy_cc.Alias.{codes}
use urlfy_cc.UrlCheck.{utf16_length}
use urlfy_cc.Cache.{CacheRedis, deleted, invalidate_link_and_qr}
use urlfy_cc.Links.Types.{
  alias_unavailable, invalid_alias_format, password_too_weak, MetaTags, Link,
}
use urlfy_cc.Links.{LinkServices, fail, is_valid_alias_format, validate_custom_alias}
use urlfy_cc.Links.Lifecycle.{LifecycleServices, get_owned_link}

pub record UpdateLinkInput : Type 0 where
  pub custom_alias : Option String
  pub is_active : Option Bool
  pub expires_at : Option (Option String)
  pub max_clicks : Option (Option ℕ)
  pub password : Option (Option String)
  pub redirect_type : Option ℕ
  pub meta_title : Option (Option String)
  pub meta_description : Option (Option String)
  pub meta_image : Option (Option String)
  pub utm_source : Option (Option String)
  pub utm_medium : Option (Option String)
  pub utm_campaign : Option (Option String)
  pub tags : Option (Option (List String))
  pub notes : Option (Option String)

-- `updateData`: a column that is `none` is left as it is.
pub record LinkChanges (T : Type 0) : Type 0 where
  pub short_code : Option String
  pub is_active : Option Bool
  pub expires_at : Option (Option T)
  pub max_clicks : Option (Option ℕ)
  pub password_hash : Option (Option String)
  pub redirect_type : Option ℕ
  pub meta_title : Option (Option String)
  pub meta_description : Option (Option String)
  pub meta_image : Option (Option String)
  pub utm_source : Option (Option String)
  pub utm_medium : Option (Option String)
  pub utm_campaign : Option (Option String)
  pub tags : Option (Option (List String))
  pub notes : Option (Option String)

abbrev pub is_undefined : {A : Type 0} → Option A → Bool
is_undefined none = true
is_undefined (some a) = false

-- `undefined`, or a value of another.
abbrev pub if_defined : {A B : Type 0} → Option A → B → Option B
if_defined none b = none
if_defined (some a) b = some b

-- `x ?? null`
abbrev pub or_null : {A : Type 0} → Option (Option A) → Option A
or_null none = none
or_null (some a) = a

-- `Object.keys(updateData).length === 0`
abbrev pub has_no_keys : {T : Type 0} → LinkChanges T → Bool
has_no_keys c =
    is_undefined c.short_code
    && is_undefined c.is_active
    && is_undefined c.expires_at
    && is_undefined c.max_clicks
    && is_undefined c.password_hash
    && is_undefined c.redirect_type
    && is_undefined c.meta_title
    && is_undefined c.meta_description
    && is_undefined c.meta_image
    && is_undefined c.utm_source
    && is_undefined c.utm_medium
    && is_undefined c.utm_campaign
    && is_undefined c.tags
    && is_undefined c.notes

-- The update of a row, and the pending clicks that are added to a link that is read.
pub record UpdateServices (W E T : Type 0) : Type 0 where
  pub update_row : String → LinkChanges T → Eff W E (Option (Link T))
  pub apply_pending_clicks : Link T → Eff W E (Link T)

module _ {W E T : Type 0} (updates : UpdateServices W E T) (links : LinkServices W E T)
    (lifecycle : LifecycleServices W E T) (redis : CacheRedis W E) where
  -- `getLinkById`
  abbrev pub get_link_by_id : String → String → Eff W E (Link T)
  get_link_by_id id user_id =
      get_owned_link lifecycle redis id user_id false >>= updates.apply_pending_clicks

  abbrev pub take_new_alias : String → Bool → Eff W E (Option String)
  take_new_alias alias available =
      if available then pure (some alias) else fail links alias_unavailable

  -- The new code, if the alias is another.
  abbrev pub new_short_code : Option String → String → Eff W E (Option String)
  new_short_code none code = pure none
  new_short_code (some alias) code =
      if not (is_valid_alias_format links alias)
      then fail links invalid_alias_format
      else (if str_eq alias code
          then pure none
          else (validate_custom_alias links alias >>= take_new_alias alias))

  abbrev pub new_password_hash : Option (Option String) → Eff W E (Option (Option String))
  new_password_hash none = pure none
  new_password_hash (some none) = pure (some none)
  new_password_hash (some (some password)) =
      if truthy_text (some password)
      then (if ltb (utf16_length (codes password)) 8
          then fail links password_too_weak
          else (links.hash_password password >>= λ hash. pure (some (some hash))))
      else pure none

  abbrev pub new_expiry : Option (Option String) → Option (Option T)
  new_expiry none = none
  new_expiry (some none) = some none
  new_expiry (some (some s)) = some (some (links.to_date s))

  abbrev pub new_meta : UpdateLinkInput → MetaTags
  new_meta input =
      links.sanitize_meta_tags (or_null input.meta_title) (or_null input.meta_description)
        (or_null input.meta_image)

  abbrev pub changes_of : UpdateLinkInput → Option String → Option (Option String) → LinkChanges T
  changes_of input new_code hash = record {
    short_code = if truthy_text new_code then new_code else none;
    is_active = input.is_active;
    expires_at = new_expiry input.expires_at;
    max_clicks = input.max_clicks;
    password_hash = hash;
    redirect_type = input.redirect_type;
    meta_title = if_defined input.meta_title (new_meta input).title;
    meta_description = if_defined input.meta_description (new_meta input).description;
    meta_image = if_defined input.meta_image (new_meta input).image;
    utm_source = input.utm_source;
    utm_medium = input.utm_medium;
    utm_campaign = input.utm_campaign;
    tags = if_defined input.tags (links.sanitize_tags (or_null input.tags));
    notes = if_defined input.notes (links.sanitize_notes (or_null input.notes));
  }

  -- The codes that the cache forgets, the old one and the new one.
  abbrev pub forget_codes : String → Option String → Eff W E (Unit {0})
  forget_codes code new_code =
      if truthy_text new_code && not (str_eq (or_else new_code "") code)
      then (invalidate_link_and_qr redis code (some deleted)
          >> invalidate_link_and_qr redis (or_else new_code "") none)
      else invalidate_link_and_qr redis code none

  abbrev pub store_changes :
      String → Link T → Option String → LinkChanges T → Eff W E (Option (Link T))
  store_changes id link new_code changes =
      if has_no_keys changes
      then pure (some link)
      else (updates.update_row id changes >>= λ row.
          forget_codes link.new.short_code new_code >> pure row)

  -- `updateLink`
  unfoldable pub update_link : String → String → UpdateLinkInput → Eff W E (Option (Link T))
  update_link id user_id input = get_link_by_id id user_id >>= λ link.
      new_short_code input.custom_alias link.new.short_code >>= λ new_code.
      new_password_hash input.password >>= λ hash.
      store_changes id link new_code (changes_of input new_code hash)
