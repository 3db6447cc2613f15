-- ===== src/Links/Lifecycle.antt =====
-- apps/api/src/server/modules/links/link-lifecycle.service.ts: a link is deleted, restored, copied
-- and switched by its owner.
use urlfy_cc.Common.{ℕ, Bool, true, false, not, Option, none, some, String, List}
use urlfy_cc.Common.Effects.{Eff, pure, throw, ◌>>=◌, ◌>>◌}
use urlfy_cc.Cache.{CacheRedis, deleted, invalidate_link_and_qr}
use urlfy_cc.Links.Types.{LinkErrorCode, link_not_found, MetaTags, Link}

-- The columns that a copy takes from a link; the others have the defaults of the table.
pub record LinkCopy : Type 0 where
  pub user_id : Option String
  pub original_url : String
  pub short_code : String
  pub redirect_type : ℕ
  pub max_clicks : Option ℕ
  pub password_hash : Option String
  pub expires_at : Option String
  pub meta : MetaTags
  pub utm_source : Option String
  pub utm_medium : Option String
  pub utm_campaign : Option String
  pub tags : Option (List String)
  pub notes : Option String

-- The statements over the table of links, the cache, the generator of codes and the clock.
pub record LifecycleServices (W E T : Type 0) : Type 0 where
  pub select_owned : String → String → Bool → Eff W E (Option (Link T))
  pub update_deleted : String → T → Eff W E (Unit {0})
  pub update_restored : String → Eff W E (Option (Link T))
  pub update_active : String → Bool → Eff W E (Option (Link T))
  pub insert_copy : LinkCopy → Eff W E (Option (Link T))
  pub generate_unique_code : Eff W E String
  pub create_link_app_error : LinkErrorCode → E
  pub now : W → T

module _ {W E T : Type 0} (services : LifecycleServices W E T) (redis : CacheRedis W E) where
  open services use {
    select_owned, update_deleted, update_restored, update_active, insert_copy, generate_unique_code,
    create_link_app_error, now,
  }

  abbrev pub found_or_throw : Option (Link T) → Eff W E (Link T)
  found_or_throw none = throw (create_link_app_error link_not_found)
  found_or_throw (some link) = pure link

  -- `getOwnedLink`
  abbrev pub get_owned_link : String → String → Bool → Eff W E (Link T)
  get_owned_link id user_id include_deleted =
      select_owned id user_id include_deleted >>= found_or_throw

  abbrev pub delete_now : String → Eff W E (Unit {0})
  delete_now id w = update_deleted id (now w) w

  -- `softDeleteLink`
  unfoldable pub soft_delete_link : String → String → Eff W E (Unit {0})
  soft_delete_link id user_id = get_owned_link id user_id false >>= λ link.
      delete_now id >> invalidate_link_and_qr redis link.new.short_code (some deleted)

  -- An update of a row whose cached copies are dropped.
  abbrev pub update_and_invalidate : Link T → Eff W E (Option (Link T)) → Eff W E (Option (Link T))
  update_and_invalidate link update =
      update >>= λ row. invalidate_link_and_qr redis link.new.short_code none >> pure row

  abbrev pub restore_row : String → Link T → Option T → Eff W E (Option (Link T))
  restore_row id link none = pure (some link)
  restore_row id link (some at) = update_and_invalidate link (update_restored id)

  -- `restoreLink`
  unfoldable pub restore_link : String → String → Eff W E (Option (Link T))
  restore_link id user_id =
      get_owned_link id user_id true >>= λ link. restore_row id link link.deleted_at

  abbrev pub copy_of : Link T → String → LinkCopy
  copy_of original new_code = record {
    user_id = original.new.user_id;
    original_url = original.new.original_url;
    short_code = new_code;
    redirect_type = original.new.redirect_type;
    max_clicks = none;
    password_hash = none;
    expires_at = none;
    meta = original.new.meta;
    utm_source = original.new.utm_source;
    utm_medium = original.new.utm_medium;
    utm_campaign = original.new.utm_campaign;
    tags = original.new.tags;
    notes = original.new.notes;
  }

  -- `duplicateLink`
  unfoldable pub duplicate_link : String → String → Eff W E (Option (Link T))
  duplicate_link id user_id = get_owned_link id user_id false >>= λ original.
      generate_unique_code >>= λ new_code. insert_copy (copy_of original new_code)

  -- `toggleLinkActive`
  unfoldable pub toggle_link_active : String → String → Eff W E (Option (Link T))
  toggle_link_active id user_id = get_owned_link id user_id false >>= λ link.
      update_and_invalidate link (update_active id (not link.new.is_active))
