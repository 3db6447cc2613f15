-- ===== src/Alias/Tests.antt =====
-- Runs and instances for packages/contracts/src/alias-policy.ts.
use urlfy_cc.Common.{◌≡◌, refl, true, false}
use urlfy_cc.Alias.{is_alias_format, is_alphanumeric}

accepted : is_alias_format "a-9" ≡ true
unfolding is_alias_format is_alphanumeric
accepted = refl

refused : is_alias_format "-ab" ≡ false
unfolding is_alias_format is_alphanumeric
refused = refl
