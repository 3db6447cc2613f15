-- ===== src/Cache/Stored.antt =====
-- What the redirect path reads of a link that packages/redirect-domain/src/cache-service.ts stored,
-- and of one whose clicks were counted there.
use package.text.Mathlib.Text.{◌==◌ as str_eq}
use text.Mathlib.TextEquality.{eq_iff}
use urlfy_cc.Common.{
  ℕ, suc, ◌+◌, ◌*◌, ◌<◌, ◌≡◌, refl, ap, ◌∙◌, sym, Bool, true, false, Option, none, some, String,
  if◌then◌else◌, inl, inr, ◌⊎◌, arith, subst, Bool-cases,
}
use urlfy_cc.Common.Effects.{Outcome, returned, pure, bind_outcome-returned, caught-some}
use urlfy_cc.Redirect.Link.{CachedLink}
use urlfy_cc.Redirect.Fetcher.{LinkState}
use urlfy_cc.Cache.Keys.{link_key, link_404_key, link_banned_key, prefixes-apart}
use urlfy_cc.Cache.Script.{
  ScriptCommands, LinkJson, increment_clicks_lua, store_cached, store_decoded, add_clicks_to,
}
use urlfy_cc.Cache.Refresh.{should_trigger_early_refresh, early_refresh_iff}
use urlfy_cc.Cache.{
  CacheRedis, parse_if_there, parse_cached_link, with_timestamp, unless_refreshed, link_state,
  get_link_state, set_link, link_ttl, increment_clicks_count,
}
use urlfy_cc.Cache.Forget.{CacheLaws, present}

module _ {W E : Type 0} (redis : CacheRedis W E) (value : String → W → Option String)
    (laws : CacheLaws redis value) where
  open laws use {get-reads, exists-reads, setex-writes, parse-stringify, stringify-text}

  -- The state that is read of a code whose link is cached under some text.
  state_of_text :
      (refresh : Bool) (code text : String) (w w' : W) (st : LinkState)
      → value (link_key code) w ≡ some text
      → get_link_state redis refresh code w ≡ (returned st, w')
      → (v : W) × (link : Option CachedLink) × (parse_if_there redis refresh
            (link_key code)
            (some text)
            v
          ≡ (returned link, w'))
        × (st
            ≡ link_state redis
                (present (value (link_404_key code) w))
                (present (value (link_banned_key code) w))
                link)
  unfolding get_link_state
  state_of_text refresh code text w w' st there e =
      let (n, w1, first, e1) =
        bind_outcome-returned (redis.exists (link_404_key code) w) _ st w' e in
      let (m, w2, second, e2) =
        bind_outcome-returned (redis.exists (link_banned_key code) w1) _ st w' e1 in
      let (v, w3, third, e3) = bind_outcome-returned (redis.get (link_key code) w2) _ st w' e2 in
      let read404 = exists-reads (link_404_key code) w w1 n first in
      let read_ban = exists-reads (link_banned_key code) w1 w2 m second in
      let read_link = get-reads (link_key code) w2 w3 v third in
      let found : v ≡ some text =
        read_link.0 ∙ read_ban.1 (link_key code) ∙ read404.1 (link_key code) ∙ there in
      let (link, w4, parsed, last) =
        bind_outcome-returned (parse_if_there redis refresh (link_key code) v w3)
          (λ link. pure (link_state redis n m link)) st w' e3 in
      let same_world : w4 ≡ w' = ap (λ r. r.1) last in
      let same : link_state redis n m link ≡ st = ground (arith, last) in
      (
        w3,
        link,
        subst
            (λ (o : Option String).
              parse_if_there redis refresh (link_key code) o w3 ≡ (returned link, w'))
            found (parsed ∙ ap (λ u. (returned link, u)) same_world),
        sym same
            ∙ ap (λ k. link_state redis k m link) read404.0
            ∙ ap (λ k. link_state redis (present (value (link_404_key code) w)) k link)
                (read_ban.0 ∙ ap present (read404.1 (link_banned_key code))),
      )

  -- Why a link that was cached at a time is not read: it is due to be refreshed early.
  abbrev pub RefreshedEarly : Bool → ℕ → Type 0
  RefreshedEarly refresh at =
      (refresh ≡ true) × (v : W) × (at + link_ttl * 900 < redis.now v) × (redis.roll v ≡ 0)

  refreshed_or_read :
      (link : CachedLink) (at : ℕ) (v w' : W) (got : Option CachedLink)
      → unless_refreshed redis link (suc at) v ≡ (returned got, w')
      → (got ≡ some link)
        ⊎ ((got ≡ none) × (suc at + link_ttl * 900 < redis.now v) × (redis.roll v ≡ 0))
  refreshed_or_read link at v w' got e =
      elim (Bool-cases
        (should_trigger_early_refresh (some (suc at)) link_ttl (redis.now v) (redis.roll v))) [
          | inl due ↦
              let (since, same, pos, late, first) =
                (early_refresh_iff (some (suc at)) link_ttl (redis.now v) (redis.roll v)
                    (omega arith)).0
                  due in
              let at_eq : suc at ≡ since = ground (arith, same) in
              inr (ground (arith, e, due), rw at_eq late, first)
          | inr fresh ↦ inl (ground (arith, e, fresh))
        ]

  stamped_eq :
      (refresh : Bool) (key : String) (link : CachedLink) (at : ℕ) (v : W)
      → parse_if_there redis refresh key
          (some (redis.stringify (with_timestamp redis link (suc at))))
          v
        ≡ (if refresh
            then unless_refreshed redis (with_timestamp redis link (suc at)) (suc at) v
            else (returned (some (with_timestamp redis link (suc at))), v))
  unfolding parse_cached_link
  stamped_eq true key link at v =
      rw (stringify-text (with_timestamp redis link (suc at)))
        (rw (parse-stringify (with_timestamp redis link (suc at))) refl)
  stamped_eq false key link at v =
      rw (stringify-text (with_timestamp redis link (suc at)))
        (rw (parse-stringify (with_timestamp redis link (suc at))) refl)

  stamped_read :
      (refresh : Bool) (key : String) (link : CachedLink) (at : ℕ) (v w' : W)
      (got : Option CachedLink)
      → parse_if_there redis refresh key
          (some (redis.stringify (with_timestamp redis link (suc at))))
          v
        ≡ (returned got, w')
      → (got ≡ some (with_timestamp redis link (suc at)))
        ⊎ ((got ≡ none) × RefreshedEarly refresh (suc at))
  stamped_read true key link at v w' got e =
      elim (refreshed_or_read (with_timestamp redis link (suc at)) at v w' got
        (sym (stamped_eq true key link at v) ∙ e)) [
          | inl read ↦ inl read
          | inr (gone, late, first) ↦ inr (gone, (refl, v, late, first))
        ]
  stamped_read false key link at v w' got e =
      inl (ground (arith, stamped_eq false key link at v, e))

  -- A link that was stored is read back with the time of its storing, and storing it changes neither
  -- whether the code is known not to exist nor whether it is known to be banned; or no link is read,
  -- which happens only where early refreshes are on, nine tenths of the time to live have passed since
  -- and the roll was the first of ten. The clock is above 0, nothing else writes in between and no
  -- key expires.
  pub stored-reads :
      (refresh : Bool) (code : String) (link : CachedLink) (at : ℕ) (w w1 w2 : W) (st : LinkState)
      → redis.now w ≡ suc at
      → set_link redis code link w ≡ (returned tt, w1)
      → get_link_state redis refresh code w1 ≡ (returned st, w2)
      → (st
          ≡ link_state redis
              (present (value (link_404_key code) w))
              (present (value (link_banned_key code) w))
              (some (with_timestamp redis link (suc at))))
        ⊎ ((st
              ≡ link_state redis
                  (present (value (link_404_key code) w))
                  (present (value (link_banned_key code) w))
                  none)
            × RefreshedEarly refresh (suc at))
  unfolding set_link
  stored-reads refresh code link at w w1 w2 st clock stored read =
      let text = redis.stringify (with_timestamp redis link (suc at)) in
      let wrote : redis.setex (link_key code) link_ttl text w ≡ (returned tt, w1) =
        subst
          (λ (t : ℕ).
            redis.setex (link_key code) link_ttl (redis.stringify (with_timestamp redis link t)) w
            ≡ (returned tt, w1))
          clock stored in
      let holds = setex-writes (link_key code) link_ttl text w w1 wrote in
      let self : str_eq (link_key code) (link_key code) ≡ true = (eq_iff _ _).1 refl in
      let (v, got, parsed, state) =
        state_of_text refresh code text w1 w2 st (holds (link_key code) ∙ rw self refl) read in
      let kept404 : present (value (link_404_key code) w1) ≡ present (value (link_404_key code) w) =
        ap present
          (holds (link_404_key code) ∙ rw (prefixes-apart "link:" "link:404:" code refl) refl) in
      let kept_ban : present (value (link_banned_key code) w1)
          ≡ present (value (link_banned_key code) w) =
        ap present (
          holds (link_banned_key code)
          ∙ rw (prefixes-apart "link:" "link:banned:" code refl) refl) in
      let state' =
        state
        ∙ ap (λ k. link_state redis k (present (value (link_banned_key code) w1)) got) kept404
        ∙ ap (λ k. link_state redis (present (value (link_404_key code) w)) k got) kept_ban in
      elim (stamped_read refresh (link_key code) link at v w2 got parsed) [
        | inl same ↦ inl (
            state'
            ∙ ap
                (λ o.
                  link_state redis (present (value (link_404_key code) w))
                    (present (value (link_banned_key code) w)) o)
                same)
        | inr (gone, early) ↦ inr (
          state'
              ∙ ap
                  (λ o.
                    link_state redis (present (value (link_404_key code) w))
                      (present (value (link_banned_key code) w)) o)
                  gone,
          early,
        )
      ]

  -- What Redis and its JSON do for a script: it runs as one command, and reads and writes the keys;
  -- both JSON libraries read what the other wrote.
  pub record ScriptLaws (commands : ScriptCommands W) (json : LinkJson E) : Type 0 where
    pub eval-runs :
        (f : W → Outcome E (Option ℕ) × W) (w w' : W) (n : Option ℕ)
        → redis.eval_on f w ≡ (returned n, w')
        → f w ≡ (returned n, w')
    pub get-value : (w : W) (key : String) → commands.get w key ≡ value key w
    pub setex-value :
        (key : String) (ttl : ℕ) (v : String) (w : W) (j : String)
        → value j (commands.setex key ttl v w) ≡ (if str_eq key j then some v else value j w)
    pub decode-stringify : (link : CachedLink) → json.decode (redis.stringify link) ≡ returned link
    pub parse-encode : (link : CachedLink) → redis.parse (json.encode link) ≡ returned link
    pub encode-text : (link : CachedLink) → str_eq (json.encode link) "" ≡ false

  module _ (commands : ScriptCommands W) (json : LinkJson E)
      (script : ScriptLaws commands json) where
    script_lem :
        (key : String) (link : CachedLink) (amount : ℕ) (w : W)
        → value key w ≡ some (redis.stringify link)
        → increment_clicks_lua commands json key link_ttl amount w
          ≡ store_decoded commands json key link_ttl amount (returned link) w
    unfolding increment_clicks_lua
    script_lem key link amount w there =
        ap (λ o. store_cached commands json key link_ttl amount o w)
          (script.get-value w key ∙ there)
        ∙ ap (λ o. store_decoded commands json key link_ttl amount o w)
            (script.decode-stringify link)

    encoded_eq :
        (key : String) (link : CachedLink) (v : W)
        → parse_if_there redis false key (some (json.encode link)) v ≡ (returned (some link), v)
    unfolding parse_cached_link
    encoded_eq key link v = rw (script.encode-text link) (rw (script.parse-encode link) refl)

    -- When the worker has counted clicks of a link that is cached, the answer is the new count, and
    -- the redirect path reads the link with so many clicks more and all else as it was, where early
    -- refreshes are off. Nothing else writes in between and no key expires.
    pub counted-reads :
        (code : String) (link : CachedLink) (amount n : ℕ) (w w1 w2 : W) (st : LinkState)
        → value (link_key code) w ≡ some (redis.stringify link)
        → increment_clicks_count redis commands json code amount w ≡ (returned (some n), w1)
        → get_link_state redis false code w1 ≡ (returned st, w2)
        → (n ≡ link.clicks_count + amount) × (st.link ≡ some (add_clicks_to link amount))
    unfolding increment_clicks_count
    counted-reads code link amount n w w1 w2 st there counted read =
        let ran =
          script.eval-runs (increment_clicks_lua commands json (link_key code) link_ttl amount) w w1
            (some n) (caught-some _ n w1 counted) in
        let stored = sym (script_lem (link_key code) link amount w there) ∙ ran in
        let self : str_eq (link_key code) (link_key code) ≡ true = (eq_iff _ _).1 refl in
        let holds : value (link_key code) w1 ≡ some (json.encode (add_clicks_to link amount)) =
          ap (λ r. value (link_key code) r.1) (sym stored)
          ∙ script.setex-value (link_key code) _ (json.encode (add_clicks_to link amount)) w
              (link_key code)
          ∙ rw self refl in
        let (v, got, parsed, state) =
          state_of_text false code (json.encode (add_clicks_to link amount)) w1 w2 st holds read in
        let found : some (add_clicks_to link amount) ≡ got =
          ground (arith, encoded_eq (link_key code) (add_clicks_to link amount) v, parsed) in
        (ground (arith, stored), ap (λ s. s.link) state ∙ sym found)
