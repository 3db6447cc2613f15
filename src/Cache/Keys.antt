-- ===== src/Cache/Keys.antt =====
-- The keys of packages/cache/src/keys.ts under which the cache of links stands.
use Prim.Native.String.{◌++◌}
use package.text.Mathlib.Text.{◌==◌ as str_eq}
use text.Mathlib.TextEquality.{eq_iff}
use text.Mathlib.TextLemmas.{append_cancel_right}
use urlfy_cc.Common.{String, ◌≡◌, false, arith}

abbrev pub link_key : String → String
link_key code = "link:" ++ code

abbrev pub link_meta_key : String → String
link_meta_key code = "link:meta:" ++ code

abbrev pub link_404_key : String → String
link_404_key code = "link:404:" ++ code

abbrev pub link_banned_key : String → String
link_banned_key code = "link:banned:" ++ code

abbrev pub qr_keys_set : String → String
qr_keys_set code = "qr:keys:" ++ code

-- The keys of one code under different prefixes differ.
pub prefixes-apart :
    (p q code : String) → str_eq p q ≡ false → str_eq (p ++ code) (q ++ code) ≡ false
prefixes-apart p q code h = ground (
  arith,
  h,
  eq_iff p q,
  eq_iff (p ++ code) (q ++ code),
  λ (e : (p ++ code) ≡ (q ++ code)). append_cancel_right p q code e,
)
