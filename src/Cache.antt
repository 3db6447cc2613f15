-- ===== src/Cache.antt =====
-- `CacheService` of packages/redirect-domain/src/cache-service.ts: what Redis holds of the links, of
-- the codes that do not exist and of those that are banned.
pub mod Keys
pub mod Script
pub mod Scan
pub mod Refresh
pub mod Forget
pub mod States
pub mod Stored
mod Codec
pub mod Memory
mod Tests
use package.text.Mathlib.Text.{◌==◌ as str_eq}
use urlfy_cc.Common.{
  ℕ, zero, suc, ◌+◌, ◌-◌, ◌*◌, Bool, true, false, Option, none, some, String, List, [], ◌∷◌, ◌++◌,
  ◌&&◌, ltb, leb, ◌==◌, length, if◌then◌else◌, truthy_text, or_else,
}
use urlfy_cc.Common.Effects.{
  Outcome, returned, threw, Eff, pure, throw, catch, ◌>>=◌, ◌>>◌, bind_outcome,
}
use urlfy_cc.Redirect.Link.{CachedLink}
use urlfy_cc.Redirect.Fetcher.{LinkState}
use urlfy_cc.Cache.Keys.{link_key, link_meta_key, link_404_key, link_banned_key, qr_keys_set}
use urlfy_cc.Cache.Script.{ScriptCommands, LinkJson, increment_clicks_lua}
use urlfy_cc.Cache.Refresh.{should_trigger_early_refresh, cached_since}

-- The commands of Redis that the service sends, the clock, the tenth in which the next random
-- number lies, and the JSON of a link. A `TTL` that is not above 0 is 0 here.
pub record CacheRedis (W E : Type 0) : Type 0 where
  pub get : String → Eff W E (Option String)
  pub setex : String → ℕ → String → Eff W E (Unit {0})
  pub ttl : String → Eff W E ℕ
  pub exists : String → Eff W E ℕ
  pub del : List String → Eff W E (Unit {0})
  pub smembers : String → Eff W E (List String)
  pub scan : String → String → ℕ → Eff W E (String × List String)
  pub eval_on : (W → Outcome E (Option ℕ) × W) → Eff W E (Option ℕ)
  pub flushall : Eff W E (Unit {0})
  pub now : W → ℕ
  pub roll : W → ℕ
  pub parse : String → Outcome E CachedLink
  pub stringify : CachedLink → String

abbrev pub link_ttl : ℕ
link_ttl = 3600

abbrev pub not_found_ttl : ℕ
not_found_ttl = 300

abbrev pub banned_ttl : ℕ
banned_ttl = 86400

-- Why a link is invalidated.
pub data Reason : Type 0 where
  ban deleted not_found : Reason

module _ {W E : Type 0} (redis : CacheRedis W E) where
  open redis use {
    get, setex, ttl, exists, del, smembers, scan, eval_on, flushall, now, roll, parse, stringify,
  }

  abbrev pub of_outcome : {A : Type 0} → Outcome E A → Eff W E A
  of_outcome r w = (r, w)

  -- Two commands that `Promise.all` sends: both run, and the first error is thrown.
  abbrev pub first_error :
      Outcome E (Unit {0}) → Outcome E (Unit {0}) × W → Outcome E (Unit {0}) × W
  first_error (returned _) r = r
  first_error (threw e) (r, w) = (threw e, w)

  abbrev pub both : Eff W E (Unit {0}) → Eff W E (Unit {0}) → Eff W E (Unit {0})
  both m k w = let (r, w1) = m w in first_error r (k w1)

  -- `_cachedAt`, or what the remaining time to live tells of it.
  abbrev pub cached_at_of : String → Option ℕ → Eff W E ℕ
  cached_at_of key (some (suc at)) = pure (suc at)
  cached_at_of key (some zero) = ttl key >>= λ t w. (returned (cached_since link_ttl t (now w)), w)
  cached_at_of key none = ttl key >>= λ t w. (returned (cached_since link_ttl t (now w)), w)

  abbrev pub unless_refreshed : CachedLink → ℕ → Eff W E (Option CachedLink)
  unless_refreshed link cached_at w =
      if should_trigger_early_refresh (some cached_at) link_ttl (now w) (roll w)
      then (returned none, w)
      else (returned (some link), w)

  -- `parseCachedLink`; `refresh` is `enableProbabilisticRefresh`.
  unfoldable pub parse_cached_link : Bool → String → String → Eff W E (Option CachedLink)
  parse_cached_link refresh key cached = do
    link ← of_outcome (parse cached)
    if refresh
        then (cached_at_of key link.cached_at >>= unless_refreshed link)
        else pure (some link)

  abbrev pub parse_if_there : Bool → String → Option String → Eff W E (Option CachedLink)
  parse_if_there refresh key none = pure none
  parse_if_there refresh key (some cached) =
      if truthy_text (some cached) then parse_cached_link refresh key cached else pure none

  -- `getLink`
  unfoldable pub get_cached_link : Bool → String → Eff W E (Option CachedLink)
  get_cached_link refresh code =
      catch (get (link_key code) >>= parse_if_there refresh (link_key code)) (λ _. pure none)

  abbrev pub with_timestamp : CachedLink → ℕ → CachedLink
  with_timestamp link at = record link { cached_at = some at }

  -- `setLink`, which throws again what it catches.
  unfoldable pub set_link : String → CachedLink → Eff W E (Unit {0})
  set_link code link w = setex (link_key code) link_ttl (stringify (with_timestamp link (now w))) w

  -- `isNotFound` and `isBanned`
  abbrev pub key_exists : String → Eff W E Bool
  key_exists key = catch (exists key >>= λ n. pure (n == 1)) (λ _. pure false)

  abbrev pub is_not_found : String → Eff W E Bool
  is_not_found code = key_exists (link_404_key code)

  abbrev pub is_banned : String → Eff W E Bool
  is_banned code = key_exists (link_banned_key code)

  -- `setNotFound`
  unfoldable pub set_not_found : String → Eff W E (Unit {0})
  set_not_found code = catch (setex (link_404_key code) not_found_ttl "1") (λ _. pure tt)

  -- `setBanned`
  unfoldable pub set_banned : String → Eff W E (Unit {0})
  set_banned code = catch (setex (link_banned_key code) banned_ttl "1") (λ _. pure tt)

  abbrev pub link_state : ℕ → ℕ → Option CachedLink → LinkState
  link_state not_found_exists banned_exists link = record {
    is_not_found = not_found_exists == 1;
    is_banned = banned_exists == 1;
    link = link;
  }

  -- `getLinkState`
  unfoldable pub get_link_state : Bool → String → Eff W E LinkState
  get_link_state refresh code = do
    not_found_exists ← exists (link_404_key code)
    banned_exists ← exists (link_banned_key code)
    cached ← get (link_key code)
    link ← parse_if_there refresh (link_key code) cached
    pure (link_state not_found_exists banned_exists link)

  abbrev pub removed_qr : String → List String → Eff W E ℕ
  removed_qr qr_set [] = del (qr_set ∷ []) >> pure 0
  removed_qr qr_set (key ∷ keys) = del ((key ∷ keys) ++ (qr_set ∷ [])) >> pure (length (key ∷ keys))

  -- `invalidateQR`
  unfoldable pub invalidate_qr : String → Eff W E ℕ
  invalidate_qr code = smembers (qr_keys_set code) >>= removed_qr (qr_keys_set code)

  abbrev pub delete_link_keys : String → Eff W E (Unit {0})
  delete_link_keys code = both (del (link_key code ∷ [])) (
      both (del (link_meta_key code ∷ []))
        (both (del (link_404_key code ∷ [])) (del (link_banned_key code ∷ []))))

  -- `invalidateLink`
  unfoldable pub invalidate_link : String → Eff W E (Unit {0})
  invalidate_link code = delete_link_keys code >> (invalidate_qr code >>= λ _. pure tt)

  abbrev pub mark : String → Option Reason → Eff W E (Unit {0})
  mark code (some ban) = set_banned code
  mark code (some deleted) = set_not_found code
  mark code (some not_found) = set_not_found code
  mark code none = pure tt

  -- `invalidateLinkAndQR`
  unfoldable pub invalidate_link_and_qr : String → Option Reason → Eff W E (Unit {0})
  invalidate_link_and_qr code reason = invalidate_link code >> mark code reason

  -- `invalidateAndBan` and `invalidateAndMarkDeleted`, which throw again what they catch.
  abbrev pub invalidate_and_ban : String → Eff W E (Unit {0})
  invalidate_and_ban code = invalidate_link_and_qr code (some ban)

  abbrev pub invalidate_and_mark_deleted : String → Eff W E (Unit {0})
  invalidate_and_mark_deleted code = invalidate_link_and_qr code (some deleted)

  -- `incrementClicksCount`; the script runs as one command.
  unfoldable pub increment_clicks_count :
      ScriptCommands W → LinkJson E → String → ℕ → Eff W E (Option ℕ)
  increment_clicks_count commands json code amount =
      catch (eval_on (increment_clicks_lua commands json (link_key code) link_ttl amount))
        (λ _. pure none)

  -- `flushAll`
  abbrev pub flush_all : Eff W E (Unit {0})
  flush_all = flushall
