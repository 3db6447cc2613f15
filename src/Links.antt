-- ===== src/Links.antt =====
-- The links API: `createLink` of apps/api/src/server/modules/links/services/create-link.ts with
-- shortcode.service.ts beside it, and link-lifecycle.service.ts above them.
pub mod Types
pub mod Allowed
pub mod Lifecycle
pub mod Deleted
pub mod Update
pub mod Secure
mod Tests
use urlfy_cc.Common.{
  ℕ, zero, suc, ◌-◌, Bool, true, false, not, Option, none, some, String, List, [], ◌∷◌, ltb, ◌==◌,
  if◌then◌else◌, truthy_text, truthy_number, or_else,
}
use urlfy_cc.Common.Effects.{
  Outcome, returned, threw, Eff, pure, throw, catch, ◌>>=◌, ◌>>◌, bind_outcome,
}
use urlfy_cc.Alias.{codes, is_alias_format}
use urlfy_cc.UrlCheck.{ValidationResult, valid, invalid, ValidationError, utf16_length}
use urlfy_cc.Cache.{Reason}
use urlfy_cc.Links.Types.{
  LinkErrorCode, alias_unavailable, auth_required, url_refused, shortcode_generation_failed,
  invalid_alias_format, password_too_weak, CreateLinkInput, MetaTags, NewLink, Link,
}

-- `??` on columns that may be null.
abbrev pub first_of {ℓ} : {A : Type ℓ} → Option A → Option A → Option A
first_of none b = b
first_of (some a) b = some a

-- The database, the generator of codes, the hash, the cache, the clock and the sanitizers.
pub record LinkServices (W E T : Type 0) : Type 0 where
  pub validate_url_safe : String → Eff W E ValidationResult
  pub has_link : String → Eff W E Bool
  pub has_reserved_slug : String → Eff W E Bool
  pub generate_short_code : Eff W E String
  pub hash_password : String → Eff W E String
  pub insert_link : NewLink T → Eff W E (Option (Link T))
  pub invalidate_link : String → Eff W E (Unit {0})
  pub is_unique_constraint_violation : E → Bool
  pub create_link_app_error : LinkErrorCode → E
  pub code_generation_error : E
  pub random_uuid : W → String
  pub now : W → T
  pub to_date : String → T
  pub sanitize_meta_tags : Option String → Option String → Option String → MetaTags
  pub sanitize_tags : Option (List String) → Option (List String)
  pub sanitize_notes : Option String → Option String

abbrev pub max_insert_retries : ℕ
max_insert_retries = 5

abbrev pub max_retries : ℕ
max_retries = 5

abbrev pub with_default_type : Option ℕ → ℕ
with_default_type type = if truthy_number type then or_else type 302 else 302

module _ {W E T : Type 0} (services : LinkServices W E T) where
  open services use {
    validate_url_safe, has_link, has_reserved_slug, generate_short_code, hash_password, insert_link,
    invalidate_link, is_unique_constraint_violation, create_link_app_error, code_generation_error,
    random_uuid, now, to_date, sanitize_meta_tags, sanitize_tags, sanitize_notes,
  }

  abbrev pub fail : {A : Type 0} → LinkErrorCode → Eff W E A
  fail code = throw (create_link_app_error code)

  -- `isValidAliasFormat`
  abbrev pub is_valid_alias_format : String → Bool
  is_valid_alias_format alias = is_alias_format alias

  abbrev pub unless_reserved : String → Bool → Eff W E Bool
  unless_reserved alias true = pure false
  unless_reserved alias false = has_reserved_slug alias >>= λ reserved. pure (not reserved)

  -- `validateCustomAlias`
  unfoldable pub validate_custom_alias : String → Eff W E Bool
  validate_custom_alias alias =
      if not (is_valid_alias_format alias)
      then pure false
      else (has_link alias >>= unless_reserved alias)

  -- The error that `generateUniqueCode` throws is an `AppError` of its own.
  abbrev pub take_if_free : Eff W E String → String → Bool → Eff W E String
  take_if_free next code true = next
  take_if_free next code false =
      has_reserved_slug code >>= λ reserved. if reserved then next else pure code

  -- `generateUniqueCode` with so many rounds left.
  unfoldable pub generate_loop : ℕ → Eff W E String
  generate_loop zero = throw code_generation_error
  generate_loop (suc left) =
      generate_short_code >>= λ code. has_link code >>= take_if_free (generate_loop left) code

  abbrev pub generate_unique_code : Eff W E String
  generate_unique_code = generate_loop max_retries

  abbrev pub check_valid : ValidationResult → Eff W E (Unit {0})
  check_valid valid = pure tt
  check_valid (invalid e) = fail (url_refused e)

  abbrev pub take_alias : String → Bool → Eff W E String
  take_alias alias free = if free then pure alias else fail alias_unavailable

  abbrev pub checked_alias : String → Option String → Eff W E String
  checked_alias alias user_id =
      if not (truthy_text user_id)
      then fail auth_required
      else (if not (is_valid_alias_format alias)
          then fail invalid_alias_format
          else (validate_custom_alias alias >>= take_alias alias))

  abbrev pub choose_code : CreateLinkInput → Option String → Eff W E String
  choose_code input user_id =
      if truthy_text input.custom_alias
      then checked_alias (or_else input.custom_alias "") user_id
      else generate_unique_code

  abbrev pub checked_hash : String → Option String → Eff W E (Option String)
  checked_hash password user_id =
      if not (truthy_text user_id)
      then fail auth_required
      else (if ltb (utf16_length (codes password)) 8
          then fail password_too_weak
          else (hash_password password >>= λ hash. pure (some hash)))

  abbrev pub hash_if_given : CreateLinkInput → Option String → Eff W E (Option String)
  hash_if_given input user_id =
      if truthy_text input.password
      then checked_hash (or_else input.password "") user_id
      else pure none

  abbrev pub date_of : Option String → Option T
  date_of none = none
  date_of (some s) = if truthy_text (some s) then some (to_date s) else none

  abbrev pub meta_of : CreateLinkInput → MetaTags
  meta_of input = sanitize_meta_tags input.meta_title input.meta_description input.meta_image

  -- The values that are inserted.
  abbrev pub new_link :
      String
      → CreateLinkInput
      → Option String
      → Option String
      → Option String
      → T
      → String
      → NewLink T
  new_link id input user_id ip_hash hash at short_code = record {
    id = id;
    user_id = user_id;
    original_url = input.url;
    short_code = short_code;
    redirect_type = with_default_type input.redirect_type;
    clicks_count = 0;
    is_active = true;
    is_banned = false;
    max_clicks = input.max_clicks;
    password_hash = hash;
    expires_at = date_of input.expires_at;
    meta = meta_of input;
    utm_source = input.utm_source;
    utm_medium = input.utm_medium;
    utm_campaign = input.utm_campaign;
    tags = sanitize_tags input.tags;
    notes = sanitize_notes input.notes;
    created_by_ip_hash = ip_hash;
    created_at = at;
    updated_at = at;
  }

  -- What a round of the loop makes of the insert: `left` rounds come after it.
  abbrev pub after_insert :
      CreateLinkInput
      → ℕ
      → (String → Eff W E (Option (Link T) × String))
      → String
      → Outcome E (Option (Link T)) × W
      → Outcome E (Option (Link T) × String) × W
  after_insert input left next code (returned row, w) = (returned (row, code), w)
  after_insert input left next code (threw e, w) =
      (if not (is_unique_constraint_violation e)
          then throw e
          else (if truthy_text input.custom_alias
              then fail alias_unavailable
              else (if left == 0
                  then fail shortcode_generation_failed
                  else (generate_unique_code >>= next))))
        w

  -- The loop of the inserts with so many rounds left, and the code of the last.
  unfoldable pub insert_loop :
      CreateLinkInput → (String → NewLink T) → ℕ → String → Eff W E (Option (Link T) × String)
  insert_loop input row zero code w = (returned (none, code), w)
  insert_loop input row (suc left) code w =
      after_insert input left (insert_loop input row left) code (insert_link (row code) w)

  -- The link that is answered, of the row that was returned.
  abbrev pub answer_link : NewLink T → Link T → Link T
  answer_link new row = record row {
    new = record (row.new) {
      user_id = first_of row.new.user_id new.user_id;
      max_clicks = first_of row.new.max_clicks new.max_clicks;
      password_hash = first_of row.new.password_hash new.password_hash;
      expires_at = first_of row.new.expires_at new.expires_at;
      meta = record {
        title = first_of row.new.meta.title new.meta.title;
        description = first_of row.new.meta.description new.meta.description;
        image = first_of row.new.meta.image new.meta.image;
      };
      utm_source = first_of row.new.utm_source new.utm_source;
      utm_medium = first_of row.new.utm_medium new.utm_medium;
      utm_campaign = first_of row.new.utm_campaign new.utm_campaign;
      created_by_ip_hash = first_of row.new.created_by_ip_hash new.created_by_ip_hash;
      tags = first_of row.new.tags new.tags;
      notes = first_of row.new.notes new.notes;
    };
  }

  abbrev pub finish : (String → NewLink T) → Option (Link T) × String → Eff W E (Link T)
  finish row (none, code) = fail shortcode_generation_failed
  finish row (some link, code) =
      catch (invalidate_link code) (λ _. pure tt) >> pure (answer_link (row code) link)

  abbrev pub insert_and_finish : CreateLinkInput → (String → NewLink T) → String → Eff W E (Link T)
  insert_and_finish input row code = insert_loop input row max_insert_retries code >>= finish row

  abbrev pub at_now :
      String
      → CreateLinkInput
      → Option String
      → Option String
      → String
      → Option String
      → Eff W E (Link T)
  at_now id input user_id ip_hash code hash w =
      insert_and_finish input (new_link id input user_id ip_hash hash (now w)) code w

  -- `createLink`
  unfoldable pub create_link : CreateLinkInput → Option String → Option String → Eff W E (Link T)
  create_link input user_id ip_hash w =
      (validate_url_safe input.url >>= λ validation. check_valid validation >>= λ _.
      choose_code input user_id >>= λ code.
      hash_if_given input user_id >>= at_now (random_uuid w) input user_id ip_hash code)
        w
