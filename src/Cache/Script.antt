-- ===== src/Cache/Script.antt =====
-- `INCREMENT_CLICKS_LUA` of packages/redirect-domain/src/cache-service.ts.
use urlfy_cc.Common.{ℕ, ◌+◌, Option, none, some, String, ltb, if◌then◌else◌}
use urlfy_cc.Common.Effects.{Outcome, returned, threw}
use urlfy_cc.Redirect.Link.{CachedLink}

-- GET, TTL and SETEX within a script; a `TTL` that is not above 0 is 0 here.
pub record ScriptCommands (W : Type 0) : Type 0 where
  pub get : W → String → Option String
  pub ttl : W → String → ℕ
  pub setex : String → ℕ → String → W → W

-- `cjson`, whose decoder may throw.
pub record LinkJson (E : Type 0) : Type 0 where
  pub decode : String → Outcome E CachedLink
  pub encode : CachedLink → String

abbrev pub add_clicks_to : CachedLink → ℕ → CachedLink
add_clicks_to link amount = record link { clicks_count = link.clicks_count + amount }

module _ {W E : Type 0} (commands : ScriptCommands W) (json : LinkJson E) (key : String)
    (default_ttl amount : ℕ) where
  abbrev pub store_decoded : Outcome E CachedLink → W → Outcome E (Option ℕ) × W
  store_decoded (threw e) w = (threw e, w)
  store_decoded (returned link) w =
      let remaining = commands.ttl w key in
      let ttl = if ltb remaining 1 then default_ttl else remaining in
      (
        returned (some (link.clicks_count + amount)),
        commands.setex key ttl (json.encode (add_clicks_to link amount)) w,
      )

  abbrev pub store_cached : Option String → W → Outcome E (Option ℕ) × W
  store_cached none w = (returned none, w)
  store_cached (some cached) w = store_decoded (json.decode cached) w

  unfoldable pub increment_clicks_lua : W → Outcome E (Option ℕ) × W
  increment_clicks_lua w = store_cached (commands.get w key) w
