-- ===== src/Redirect/Fetcher.antt =====
-- `getLink` of packages/redirect-domain/src/fetcher.ts: the cache first, then the database, with one
-- of the waiting requests filling the cache. The services are those that the code is given.
pub mod Pending
pub mod Layers
use Prim.Native.String.{◌++◌}
use urlfy_cc.Common.{
  ℕ, ◌+◌, ◌*◌, Bool, true, false, Option, none, some, String, leb, ltb, if◌then◌else◌, not,
}
use urlfy_cc.Common.Effects.{Outcome, returned, threw, Eff, pure, catch, finally, ◌>>=◌, ◌>>◌}
use urlfy_cc.Redirect.Link.{CachedLink, found_302}

-- The answer of `cache.getLinkState`.
pub record LinkState : Type 0 where
  pub is_not_found : Bool
  pub is_banned : Bool
  pub link : Option CachedLink

-- `RedirectFetcherDependencies`, and the counter of pending clicks, which answers 0 when Redis
-- fails and whose reading moves no world here. `jitter` is the floor of a random number below 50.
pub record FetcherDependencies (W E : Type 0) : Type 0 where
  pub get_link_state : String → Eff W E LinkState
  pub get_cached_link : String → Eff W E (Option CachedLink)
  pub set_link : String → CachedLink → Eff W E (Unit {0})
  pub set_not_found : String → Eff W E (Unit {0})
  pub find_by_code : String → Eff W E (Option CachedLink)
  pub is_code_free : String → Eff W E Bool
  pub acquire : String → ℕ → Eff W E Bool
  pub release : String → Eff W E (Unit {0})
  pub execute : Eff W E (Option CachedLink) → Eff W E (Option CachedLink)
  pub sleep : ℕ → Eff W E (Unit {0})
  pub jitter : W → ℕ
  pub get_pending_clicks : String → W → ℕ

pub record LinkFetchResult : Type 0 where
  pub link : Option CachedLink
  pub cache_hit : Bool

-- The link that stands for a banned code.
abbrev pub banned_link : CachedLink
banned_link = record {
  id = "banned";
  original_url = "";
  redirect_type = found_302;
  is_active = true;
  is_banned = true;
  expires_at = none;
  max_clicks = none;
  clicks_count = 0;
  password_hash = none;
  utm_source = none;
  utm_medium = none;
  utm_campaign = none;
  cached_at = none;
}

abbrev pub lock_ttl_ms : ℕ
lock_ttl_ms = 5 * 1000

-- `CACHE_KEYS.LOCK`
abbrev pub lock_key : String → String
lock_key code = "lock:" ++ code

-- What `applyPendingClicks` makes of a link with so many pending clicks.
abbrev pub add_pending : ℕ → CachedLink → CachedLink
add_pending pending link =
    if leb pending 0 then link else record link { clicks_count = link.clicks_count + pending }

abbrev pub fetch_result : Bool → Option CachedLink → LinkFetchResult
fetch_result hit link = record { link = link; cache_hit = hit }

module _ {W E : Type 0} (deps : FetcherDependencies W E) where
  open deps use {
    get_link_state, get_cached_link, set_link, set_not_found, find_by_code, is_code_free, acquire,
    release, execute, sleep, jitter, get_pending_clicks,
  }

  -- `applyPendingClicks`
  abbrev pub apply_pending_clicks : Option CachedLink → Eff W E (Option CachedLink)
  apply_pending_clicks none w = (returned none, w)
  apply_pending_clicks (some link) w =
      (returned (some (add_pending (get_pending_clicks link.id w) link)), w)

  abbrev pub if_limited : Option ℕ → CachedLink → Eff W E (Option CachedLink)
  if_limited none link = pure (some link)
  if_limited (some _) link = apply_pending_clicks (some link)

  -- `applyPendingClicksForEnforcement`
  abbrev pub apply_pending_clicks_for_enforcement : Option CachedLink → Eff W E (Option CachedLink)
  apply_pending_clicks_for_enforcement none = pure none
  apply_pending_clicks_for_enforcement (some link) = if_limited link.max_clicks link

  -- `fetchFromDatabase`
  unfoldable pub fetch_from_database : String → Eff W E (Option CachedLink)
  fetch_from_database code =
      execute (do link ← find_by_code code; apply_pending_clicks_for_enforcement link)

  -- What the winner of the lock writes to the cache.
  abbrev pub fill_cache : String → Option CachedLink → Eff W E (Unit {0})
  fill_cache code none = set_not_found code
  fill_cache code (some link) = set_link code link

  abbrev pub fetch_and_fill : String → Eff W E (Option CachedLink)
  fetch_and_fill code = do link ← fetch_from_database code; fill_cache code link; pure link

  abbrev pub cached_or_database : String → Option CachedLink → Eff W E (Option CachedLink)
  cached_or_database code none = fetch_from_database code
  cached_or_database code (some link) = apply_pending_clicks_for_enforcement (some link)

  -- The wait of a request that did not get the lock.
  abbrev pub wait_for_cache : String → Eff W E (Option CachedLink)
  wait_for_cache code = do
    (λ w. sleep (50 + jitter w) w)
    cached ← get_cached_link code
    cached_or_database code cached

  -- `fetchWithStampedeProtection`
  unfoldable pub fetch_with_stampede_protection : String → Eff W E (Option CachedLink)
  fetch_with_stampede_protection code = do
    acquired ← acquire (lock_key code) lock_ttl_ms
    (if acquired
        then finally (fetch_and_fill code) (release (lock_key code))
        else wait_for_cache code)

  -- The layers after the lookup: a code that is known not to exist, a banned one, a cached link, and
  -- the database.
  abbrev pub link_or_database : String → Option CachedLink → Eff W E LinkFetchResult
  link_or_database code none = do
    link ← fetch_with_stampede_protection code
    pure (fetch_result false link)
  link_or_database code (some link) = do
    counted ← apply_pending_clicks_for_enforcement (some link)
    pure (fetch_result true counted)

  unfoldable pub by_state : String → LinkState → Eff W E LinkFetchResult
  by_state code state =
      if state.is_not_found
      then pure (fetch_result true none)
      else (if state.is_banned
          then pure (fetch_result true (some banned_link))
          else link_or_database code state.link)

  -- `getLink`
  unfoldable pub get_link : String → Eff W E LinkFetchResult
  get_link code =
      catch (do state ← get_link_state code; by_state code state)
        (λ _. do link ← fetch_from_database code; pure (fetch_result false link))

  abbrev pub free_unless_cached : String → Option CachedLink → Eff W E Bool
  free_unless_cached code none = is_code_free code
  free_unless_cached code (some _) = pure false

  -- `isCodeAvailable`
  pub is_code_available : String → Eff W E Bool
  is_code_available code = do cached ← get_cached_link code; free_unless_cached code cached
