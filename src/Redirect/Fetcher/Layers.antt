-- ===== src/Redirect/Fetcher/Layers.antt =====
-- Where an answer of `getLink` of packages/redirect-domain/src/fetcher.ts comes from.
use urlfy_cc.Common.{
  ℕ, ◌≡◌, refl, ◌⊎◌, inl, inr, true, Option, none, some, String, arith, subst, sym, ap, ◌+◌,
  Bool-cases,
}
use urlfy_cc.Common.Effects.{
  Outcome, returned, Eff, Ensures, Ensures-bind, Ensures-handle, Ensures-keep_outcome, Ensures-eq,
  Outcome-cases, bind_outcome, keep_outcome,
}
use urlfy_cc.Redirect.Link.{CachedLink}
use urlfy_cc.Redirect.Fetcher.{
  LinkState, FetcherDependencies, LinkFetchResult, banned_link, add_pending,
  apply_pending_clicks_for_enforcement, fetch_from_database, fetch_and_fill, fill_cache,
  cached_or_database, wait_for_cache, fetch_with_stampede_protection, link_or_database, by_state,
  get_link, lock_key, lock_ttl_ms,
}

-- The clicks that count for a link: those pending are added if the link has a limit.
abbrev pub counted : ℕ → CachedLink → CachedLink
counted pending raw = elim raw.max_clicks [ none ↦ raw | some _ ↦ add_pending pending raw ]

module _ {W E : Type 0} (deps : FetcherDependencies W E) (code : String) where
  open deps use {get_link_state, get_cached_link, find_by_code, get_pending_clicks, execute}

  -- A link that the cache or the database has for the code.
  pub data IsStored (raw : CachedLink) : Type 0 where
    in_state :
        (w : W) (st : LinkState)
        → (get_link_state code w).0 ≡ returned st
        → st.link ≡ some raw
        → IsStored raw
    in_cache : (w : W) → (get_cached_link code w).0 ≡ returned (some raw) → IsStored raw
    in_database : (w : W) → (find_by_code code w).0 ≡ returned (some raw) → IsStored raw

  -- Nothing is found only if the cache knows that the code does not exist, or the database does.
  pub data IsMissing : Type 0 where
    known :
        (w : W) (st : LinkState)
        → (get_link_state code w).0 ≡ returned st
        → st.is_not_found ≡ true
        → IsMissing
    not_in_database : (w : W) → (find_by_code code w).0 ≡ returned none → IsMissing

  pub data IsBannedCode : Type 0 where
    banned_code :
        (w : W) (st : LinkState)
        → (get_link_state code w).0 ≡ returned st
        → st.is_banned ≡ true
        → IsBannedCode

  abbrev pub IsCounted : CachedLink → Type 0
  IsCounted link =
      (raw : CachedLink) × IsStored raw
      × (w : W) × (link ≡ counted (get_pending_clicks raw.id w) raw)

  -- A link that comes from the cache or the database.
  abbrev pub Explains : Option CachedLink → Type 0
  Explains none = IsMissing
  Explains (some link) = (IsCounted link) ⊎ (IsBannedCode × (link ≡ banned_link))

  -- What the circuit breaker promises: what it returns, the operation returned.
  abbrev pub RunsOperation : Type 0
  RunsOperation =
      (op : Eff W E (Option CachedLink)) (w : W) (x : Option CachedLink)
      → (execute op w).0 ≡ returned x
      → (v : W) × ((op v).0 ≡ returned x)

  pub enforcement_lem :
      (raw : CachedLink) (w : W)
      → apply_pending_clicks_for_enforcement deps (some raw) w
        ≡ (returned (some (counted (get_pending_clicks raw.id w) raw)), w)
  enforcement_lem raw w = ground arith

  enforcement-Explains :
      (raw : CachedLink) (w : W)
      → IsStored raw
      → Ensures Explains (apply_pending_clicks_for_enforcement deps (some raw) w)
  enforcement-Explains raw w stored =
      subst (Ensures Explains) (sym (enforcement_lem raw w)) (inl (raw, stored, w, refl))

  found-Explains :
      (link : Option CachedLink) (v w : W)
      → (find_by_code code v).0 ≡ returned link
      → Ensures Explains (apply_pending_clicks_for_enforcement deps link w)
  found-Explains none v w e = not_in_database v e
  found-Explains (some raw) v w e = enforcement-Explains raw w (in_database v e)

  executed-Explains :
      (x : Option CachedLink)
      → (v : W) × ((bind_outcome
            (find_by_code code v)
            (apply_pending_clicks_for_enforcement deps)).0
          ≡ returned x)
      → Explains x
  executed-Explains x (v, ran) =
      Ensures-eq Explains
        (bind_outcome (find_by_code code v) (apply_pending_clicks_for_enforcement deps)) x
        (Ensures-bind Explains (find_by_code code v) _
          (λ link w1 e. found-Explains link v w1 (ap (λ r. r.0) e)))
        ran

  module _ (runs : RunsOperation) where
    database-Explains : (w : W) → Ensures Explains (fetch_from_database deps code w)
    unfolding fetch_from_database
    database-Explains w =
        elim (Outcome-cases (
          execute
            (λ v. bind_outcome (find_by_code code v) (apply_pending_clicks_for_enforcement deps))
            w)) [
              | inl (x, w1, e) ↦ rw e (executed-Explains x (runs _ w x (ap (λ r. r.0) e)))
              | inr (x, w1, e) ↦ rw e tt
            ]

    fill-Explains : (w : W) → Ensures Explains (fetch_and_fill deps code w)
    fill-Explains w = Ensures-bind Explains (fetch_from_database deps code w) _ (λ link w1 e.
        Ensures-bind Explains (fill_cache deps code link w1) _ (λ _ w2 filled.
          Ensures-eq Explains (fetch_from_database deps code w) link (database-Explains w)
            (ap (λ r. r.0) e)))

    cached-Explains :
        (cached : Option CachedLink) (v w : W)
        → (get_cached_link code v).0 ≡ returned cached
        → Ensures Explains (cached_or_database deps code cached w)
    cached-Explains none v w e = database-Explains w
    cached-Explains (some raw) v w e = enforcement-Explains raw w (in_cache v e)

    wait-Explains : (w : W) → Ensures Explains (wait_for_cache deps code w)
    wait-Explains w = Ensures-bind Explains (deps.sleep (50 + deps.jitter w) w) _ (λ _ w1 _.
        Ensures-bind Explains (get_cached_link code w1) _
          (λ cached w2 e. cached-Explains cached w1 w2 (ap (λ r. r.0) e)))

    finally-Explains :
        (r : Outcome E (Option CachedLink) × W) (after : Eff W E (Unit {0}))
        → Ensures Explains r
        → Ensures Explains (keep_outcome r.0 (after r.1))
    finally-Explains (r, w) after h = Ensures-keep_outcome Explains r w (after w) h

    stampede-Explains : (w : W) → Ensures Explains (fetch_with_stampede_protection deps code w)
    unfolding fetch_with_stampede_protection
    stampede-Explains w =
        Ensures-bind Explains (deps.acquire (lock_key code) lock_ttl_ms w) _ (λ acquired w1 _.
          elim (Bool-cases acquired) [
            | inl won ↦ rw won (
                finally-Explains (fetch_and_fill deps code w1) (deps.release (lock_key code))
                  (fill-Explains w1))
            | inr lost ↦ rw lost (wait-Explains w1)
          ])

    abbrev ExplainsResult : LinkFetchResult → Type 0
    ExplainsResult r = Explains r.link

    link_or_database-Explains :
        (link : Option CachedLink) (v w : W) (st : LinkState)
        → (get_link_state code v).0 ≡ returned st
        → st.link ≡ link
        → Ensures ExplainsResult (link_or_database deps code link w)
    link_or_database-Explains none v w st e same =
        Ensures-bind ExplainsResult (fetch_with_stampede_protection deps code w) _ (λ link w1 got.
          Ensures-eq Explains (fetch_with_stampede_protection deps code w) link
            (stampede-Explains w) (ap (λ r. r.0) got))
    link_or_database-Explains (some raw) v w st e same =
        Ensures-bind ExplainsResult (apply_pending_clicks_for_enforcement deps (some raw) w) _
          (λ link w1 got.
            Ensures-eq Explains (apply_pending_clicks_for_enforcement deps (some raw) w) link
              (enforcement-Explains raw w (in_state v st e same)) (ap (λ r. r.0) got))

    by_state-Explains :
        (v w : W) (st : LinkState)
        → (get_link_state code v).0 ≡ returned st
        → Ensures ExplainsResult (by_state deps code st w)
    unfolding by_state
    by_state-Explains v w st e = elim (Bool-cases st.is_not_found) [
      | inl missing ↦ rw missing (known v st e missing)
      | inr here ↦ rw here (elim (Bool-cases st.is_banned) [
        | inl bad ↦ rw bad (inr (banned_code v st e bad, refl))
        | inr good ↦ rw good (link_or_database-Explains st.link v w st e refl)
      ])
    ]

    -- Whatever fails and whoever fills the cache, a link that `getLink` returns is one that the cache
    -- or the database has for the code, with its pending clicks counted if it has a limit, or stands
    -- for a code that the cache knows to be banned; and if it returns none, the cache knew that the
    -- code does not exist, or the database did not find it. The circuit breaker is to return only
    -- what its operation returned.
    pub get_link-Explains : (w : W) → Ensures ExplainsResult (get_link deps code w)
    unfolding get_link
    get_link-Explains w =
        Ensures-handle ExplainsResult (bind_outcome (get_link_state code w) (by_state deps code)) _
          (Ensures-bind ExplainsResult (get_link_state code w) _
            (λ st w1 e. by_state-Explains w w1 st (ap (λ r. r.0) e)))
          (λ _ w'. Ensures-bind ExplainsResult (fetch_from_database deps code w') _ (λ link w1 got.
            Ensures-eq Explains (fetch_from_database deps code w') link (database-Explains w')
              (ap (λ r. r.0) got)))
