-- ===== src/Redirect/Service/Urls.antt =====
-- Which addresses the loop test of packages/redirect-domain/src/service.ts stops.
use urlfy_cc.Common.{
  ℕ, ◌≡◌, refl, ◌⊎◌, inl, inr, true, Option, some, String, List, ◌∷◌, arith, if◌then◌else◌,
  truthy_text,
}
use text.Mathlib.TextEquality.{eq_iff}
use urlfy_cc.Alias.{
  codes, matches, alias_path_segment_regex, alias_redirect_path_regex, is_alias_format,
}
use urlfy_cc.Alias.Shape.{alias_paths}
use urlfy_cc.Redirect.Service.{
  UrlApi, is_own_host, is_self_shortener_origin, is_self_shortener_loop,
}

module _ {Url : Type 0} (urls : UrlApi Url) where
  open urls use {parse, hostname, origin, pathname}

  -- The application's own address: a host of the service, or the origin of the configured address.
  abbrev pub IsOwn : Option String → Url → Type 0
  IsOwn app_url url =
      (is_own_host (hostname url) ≡ true)
      ⊎ ((s : String) × (app : Url) × (app_url ≡ some s)
          × (truthy_text app_url ≡ true)
          × (parse s ≡ some app)
          × (origin url ≡ origin app))

  abbrev pub IsAliasPath : List ℕ → Type 0
  IsAliasPath path =
      (code : String) × (is_alias_format code ≡ true)
      × ((path ≡ b'/' ∷ codes code) ⊎ (path ≡ b'/' ∷ (b'r' ∷ (b'/' ∷ codes code))))

  own_origin :
      (app_url : Option String) (url : Url)
      → IsOwn app_url url
      → is_self_shortener_origin urls app_url url ≡ true
  unfolding is_self_shortener_origin
  own_origin app_url url (inl host) = rw host refl
  own_origin app_url url (inr (s, app, given, truthy, parsed, same)) =
      ground (arith, eq_iff (origin url) (origin app))

  alias_path :
      (path : List ℕ)
      → IsAliasPath path
      → (if matches alias_redirect_path_regex path
          then true
          else matches alias_path_segment_regex path)
        ≡ true
  alias_path path (code, valid, inl e) = ground (arith, alias_paths code valid)
  alias_path path (code, valid, inr e) = ground (arith, alias_paths code valid)

  -- An address of the application whose path is that of an alias, `/alias` or `/r/alias`, counts as
  -- a redirect loop.
  pub own_alias-loops :
      (app_url : Option String) (text : String) (url : Url)
      → parse text ≡ some url
      → IsOwn app_url url
      → IsAliasPath (codes (pathname url))
      → is_self_shortener_loop urls app_url text ≡ true
  unfolding is_self_shortener_loop
  own_alias-loops app_url text url parsed own path =
      rw (parsed, own_origin app_url url own) (alias_path (codes (pathname url)) path)
