-- ===== src/Links/Tests.antt =====
-- Runs and instances for `createLink` and link-lifecycle.service.ts of
-- apps/api/src/server/modules/links.
use package.text.Mathlib.Text.{◌==◌ as str_eq}
use urlfy_cc.Common.{
  ℕ, ◌+◌, ◌≡◌, refl, Bool, true, false, Option, none, some, String, ltb, if◌then◌else◌, ◌⊎◌,
}
use urlfy_cc.Common.Effects.{returned, threw, Ensures}
use urlfy_cc.Alias.{is_alias_format, matches, is_alphanumeric}
use urlfy_cc.UrlCheck.{valid, BannedDomains}
use urlfy_cc.UrlCheck.Memory
use urlfy_cc.Cache.{
  get_link_state, deleted, invalidate_link_and_qr, invalidate_link, invalidate_qr, set_not_found,
}
use urlfy_cc.Cache.States.{expected, MarkFails}
use urlfy_cc.Cache.Memory.{Store, value, redis, laws}
use urlfy_cc.Links.Types.{LinkErrorCode, CreateLinkInput, NewLink, Link, alias_unavailable}
use urlfy_cc.Links.{LinkServices, create_link, insert_loop, generate_loop, validate_custom_alias}
use urlfy_cc.Links.Allowed.{IsAllowed, create_link-IsAllowed}
use urlfy_cc.Links.Lifecycle.{LifecycleServices, soft_delete_link, restore_link, toggle_link_active}
use urlfy_cc.Links.Update.{UpdateLinkInput, UpdateServices, update_link}
use urlfy_cc.Links.Update.Renamed.{asks_nothing, IsWritten, updated-reads}
use urlfy_cc.Links.Deleted.{soft_deleted-reads}

abbrev input : CreateLinkInput
input = record {
  url = "https://example.org";
  custom_alias = none;
  password = none;
  redirect_type = none;
  max_clicks = some 9;
  expires_at = none;
  meta_title = none;
  meta_description = none;
  meta_image = none;
  utm_source = none;
  utm_medium = none;
  utm_campaign = none;
  tags = none;
  notes = none;
}

abbrev Error : Type 0
Error = Option LinkErrorCode

abbrev row_of : {T : Type 0} → NewLink T → Link T
row_of new = record {
  new = new;
  banned_at = none;
  banned_reason = none;
  last_clicked_at = none;
  qr_generated_at = none;
  deleted_at = none;
}

abbrev is_twice : Error → Bool
is_twice none = true
is_twice (some c) = false

-- The world counts inserts; the first is refused as a duplicate, with the error `none`.
abbrev services : LinkServices ℕ Error ℕ
services = record {
  validate_url_safe = λ url w. (returned valid, w);
  has_link = λ code w. (returned (str_eq code "taken"), w);
  has_reserved_slug = λ code w. (returned (str_eq code "admin"), w);
  generate_short_code = λ w. (returned "abc123", w);
  hash_password = λ password w. (returned "hash", w);
  insert_link = λ new w. (if ltb w 1 then threw none else returned (some (row_of new)), w + 1);
  invalidate_link = λ code w. (threw none, w);
  is_unique_constraint_violation = λ e. is_twice e;
  create_link_app_error = λ c. some c;
  code_generation_error = none;
  random_uuid = λ w. "id";
  now = λ w. 7;
  to_date = λ s. 8;
  sanitize_meta_tags = λ a b c. record { title = a; description = b; image = c };
  sanitize_tags = λ t. t;
  sanitize_notes = λ n. n;
}

created :
    (code : String) × (w : ℕ) × (link : Link ℕ) × (create_link services input none none 0
      ≡ (returned link, w))
    × (link.new.short_code ≡ code)
unfolding create_link insert_loop generate_loop
created = ("abc123", 2, _, refl, refl)

-- An alias that another request takes between the check and the insert is refused as taken.
raced :
    (create_link services (record input { custom_alias = some "mine" }) (some "u1") none 0).0
    ≡ threw (some alias_unavailable)
unfolding create_link insert_loop generate_loop validate_custom_alias matches is_alias_format
    is_alphanumeric
raced = refl

create_link-IsAllowed_example :
    Ensures (IsAllowed services input none) (create_link services input none (some "ip") 0)
create_link-IsAllowed_example = create_link-IsAllowed services input none (some "ip") 0

abbrev new : NewLink ℕ
new = record {
  id = "l1";
  user_id = some "u1";
  original_url = "https://example.org";
  short_code = "abc";
  redirect_type = 302;
  clicks_count = 0;
  is_active = true;
  is_banned = false;
  max_clicks = none;
  password_hash = none;
  expires_at = none;
  meta = record { title = none; description = none; image = none };
  utm_source = none;
  utm_medium = none;
  utm_campaign = none;
  tags = none;
  notes = none;
  created_by_ip_hash = none;
  created_at = 1;
  updated_at = 1;
}

abbrev mine : Link ℕ
mine = record (row_of new) { deleted_at = some 5 }

-- The one link is that of the user `u1`, and every update finds it.
abbrev lifecycle : LifecycleServices Store String ℕ
lifecycle = record {
  select_owned = λ id user deleted w. (returned (if str_eq user "u1" then some mine else none), w);
  update_deleted = λ id at w. (returned tt, w);
  update_restored = λ id w. (returned (some (row_of new)), w);
  update_active = λ id active w. (returned (some mine), w);
  insert_copy = λ copy w. (returned (some mine), w);
  generate_unique_code = λ w. (returned "xyz", w);
  create_link_app_error = λ c. "app";
  now = λ w. 5;
}

abbrev nothing : Store
nothing = λ key. none

soft_deleted :
    soft_delete_link lifecycle redis "l1" "u1" nothing
    ≡ (returned tt, (soft_delete_link lifecycle redis "l1" "u1" nothing).1)
unfolding soft_delete_link invalidate_link_and_qr invalidate_link invalidate_qr set_not_found
soft_deleted = refl

abbrev gone : Store
gone = (soft_delete_link lifecycle redis "l1" "u1" nothing).1

gone-read :
    get_link_state redis true "abc" gone
    ≡ (returned (record { is_not_found = true; is_banned = false; link = none }), gone)
unfolding soft_delete_link get_link_state invalidate_link_and_qr invalidate_link invalidate_qr
    set_not_found
gone-read = refl

soft_deleted-reads_example :
    (record { is_not_found = true; is_banned = false; link = none } ≡ expected (some deleted))
    ⊎ MarkFails redis value laws "abc" (some deleted)
soft_deleted-reads_example =
    soft_deleted-reads lifecycle redis value laws "l1" "u1" mine true _ nothing nothing gone gone
      refl soft_deleted gone-read

restored :
    restore_link lifecycle redis "l1" "u1" nothing
    ≡ (returned (some (row_of new)), (restore_link lifecycle redis "l1" "u1" nothing).1)
unfolding restore_link invalidate_link_and_qr invalidate_link invalidate_qr
restored = refl

abbrev back : Store
back = (restore_link lifecycle redis "l1" "u1" nothing).1

back-read :
    get_link_state redis true "abc" back
    ≡ (returned (record { is_not_found = false; is_banned = false; link = none }), back)
unfolding restore_link get_link_state invalidate_link_and_qr invalidate_link invalidate_qr
back-read = refl

toggled :
    toggle_link_active lifecycle redis "l1" "u1" nothing
    ≡ (returned (some mine), (toggle_link_active lifecycle redis "l1" "u1" nothing).1)
unfolding toggle_link_active invalidate_link_and_qr invalidate_link invalidate_qr
toggled = refl

-- The services of an update, over the keys of the cache.
abbrev stored : LinkServices Store String ℕ
stored = record {
  validate_url_safe = λ url w. (returned valid, w);
  has_link = λ code w. (returned (str_eq code "taken"), w);
  has_reserved_slug = λ code w. (returned (str_eq code "admin"), w);
  generate_short_code = λ w. (returned "abc123", w);
  hash_password = λ password w. (returned "hash", w);
  insert_link = λ new w. (returned (some (row_of new)), w);
  invalidate_link = λ code w. (returned tt, w);
  is_unique_constraint_violation = λ e. false;
  create_link_app_error = λ c. "app";
  code_generation_error = "app";
  random_uuid = λ w. "id";
  now = λ w. 7;
  to_date = λ s. 8;
  sanitize_meta_tags = λ a b c. record { title = a; description = b; image = c };
  sanitize_tags = λ t. t;
  sanitize_notes = λ n. n;
}

abbrev updates : UpdateServices Store String ℕ
updates = record {
  update_row = λ id changes w. (returned (some (row_of new)), w);
  apply_pending_clicks = λ link w. (returned link, w);
}

abbrev renaming : UpdateLinkInput
renaming = record {
  custom_alias = some "mine";
  is_active = none;
  expires_at = none;
  max_clicks = some none;
  password = none;
  redirect_type = none;
  meta_title = none;
  meta_description = none;
  meta_image = none;
  utm_source = none;
  utm_medium = none;
  utm_campaign = none;
  tags = none;
  notes = none;
}

abbrev moved : Store
moved = (update_link updates stored lifecycle redis "l1" "u1" renaming nothing).1

updated :
    update_link updates stored lifecycle redis "l1" "u1" renaming nothing
    ≡ (returned (some (row_of new)), moved)
unfolding update_link validate_custom_alias is_alias_format matches is_alphanumeric
    invalidate_link_and_qr invalidate_link invalidate_qr set_not_found
updated = refl

moved-read :
    get_link_state redis true "mine" moved
    ≡ (returned (record { is_not_found = false; is_banned = false; link = none }), moved)
unfolding update_link validate_custom_alias is_alias_format matches is_alphanumeric get_link_state
    invalidate_link_and_qr invalidate_link invalidate_qr set_not_found
moved-read = refl

-- The old code is one of no link from then on.
old_code-gone :
    (get_link_state redis true "abc" moved).0
    ≡ returned (record { is_not_found = true; is_banned = false; link = none })
unfolding update_link validate_custom_alias is_alias_format matches is_alphanumeric get_link_state
    invalidate_link_and_qr invalidate_link invalidate_qr set_not_found
old_code-gone = refl

updated-reads_example :
    ((asks_nothing updates stored lifecycle redis "abc" renaming ≡ true)
      × (some (row_of new) ≡ some mine))
    ⊎ ((asks_nothing updates stored lifecycle redis "abc" renaming ≡ false)
        × IsWritten updates stored lifecycle redis value laws "l1" "abc" renaming
            (some (row_of new))
        × (record { is_not_found = false; is_banned = false; link = none } ≡ expected none))
updated-reads_example =
    updated-reads updates stored lifecycle redis value laws "l1" "u1" renaming mine true _ nothing
      nothing moved moved (some (row_of new)) refl updated moved-read

-- The services of a creation, over the state of the validation of addresses and the time.
abbrev checked : LinkServices (BannedDomains × ℕ) String ℕ
checked = record {
  validate_url_safe = λ url w. (returned valid, w);
  has_link = λ code w. (returned false, w);
  has_reserved_slug = λ code w. (returned false, w);
  generate_short_code = λ w. (returned "abc123", w);
  hash_password = λ password w. (returned "hash", w);
  insert_link = λ new w. (returned (some (row_of new)), w);
  invalidate_link = λ code w. (returned tt, w);
  is_unique_constraint_violation = λ e. false;
  create_link_app_error = λ c. "app";
  code_generation_error = "app";
  random_uuid = λ w. "id";
  now = λ w. 7;
  to_date = λ s. 8;
  sanitize_meta_tags = λ a b c. record { title = a; description = b; image = c };
  sanitize_tags = λ t. t;
  sanitize_notes = λ n. n;
}

abbrev open_input : CreateLinkInput
open_input = record input { url = "example.org" }
