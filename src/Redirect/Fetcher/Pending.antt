-- ===== src/Redirect/Fetcher/Pending.antt =====
-- The pending clicks in what packages/redirect-domain/src/fetcher.ts writes to the cache, and its
-- errors.
use urlfy_cc.Common.{
  ℕ, ◌+◌, ◌≡◌, refl, inl, inr, true, false, Option, none, some, String, arith, ap, zero, suc, sym,
  ◌∙◌,
}
use urlfy_cc.Common.Effects.{
  Outcome, returned, threw, Eff, Outcome-cases, bind_outcome, handle_outcome,
}
use urlfy_cc.Redirect.Link.{CachedLink}
use urlfy_cc.Redirect.Fetcher.{
  LinkState, FetcherDependencies, LinkFetchResult, add_pending, fetch_from_database,
  fetch_with_stampede_protection, by_state, get_link, fetch_result, lock_key, lock_ttl_ms,
  apply_pending_clicks_for_enforcement, if_limited,
}

abbrev pub not_cached : LinkState
not_cached = record { is_not_found = false; is_banned = false; link = none }

abbrev pub cached_state : CachedLink → LinkState
cached_state link = record { is_not_found = false; is_banned = false; link = some link }

-- The link with so many more clicks.
abbrev pub with_clicks : ℕ → CachedLink → CachedLink
with_clicks n link = record link { clicks_count = link.clicks_count + n }

plus_zero : (link : CachedLink) → with_clicks 0 link ≡ link
plus_zero link = ap (λ c. record link { clicks_count = c }) (ground arith)

add_pending-with_clicks : (n : ℕ) (link : CachedLink) → add_pending n link ≡ with_clicks n link
add_pending-with_clicks zero link = sym (plus_zero link)
add_pending-with_clicks (suc n) link = ground arith

module _ {W E : Type 0} (deps : FetcherDependencies W E) (code : String) where
  open deps use {
    get_link_state, set_link, find_by_code, acquire, release, execute, get_pending_clicks,
  }

  -- The way a request goes that finds nothing in the cache, wins the lock, reads a link with a limit
  -- from the database and writes it to the cache; from `w0` to `w5`.
  pub record FillsCache (raw : CachedLink) (m : ℕ) (w0 w1 w2 w3 w4 w5 : W) : Type 0 where
    pub limited : raw.max_clicks ≡ some m
    pub looked_up : get_link_state code w0 ≡ (returned not_cached, w1)
    pub won : acquire (lock_key code) lock_ttl_ms w1 ≡ (returned true, w2)
    pub ran : (op : Eff W E (Option CachedLink)) → execute op w2 ≡ op w2
    pub found : find_by_code code w2 ≡ (returned (some raw), w3)
    pub written :
        set_link code (with_clicks (get_pending_clicks raw.id w3) raw) w3 ≡ (returned tt, w4)
    pub released : release (lock_key code) w4 ≡ (returned tt, w5)

  if_limited-some :
      (limit : Option ℕ) (raw : CachedLink) (m : ℕ) (w : W)
      → limit ≡ some m
      → if_limited deps limit raw w
        ≡ (returned (some (add_pending (get_pending_clicks raw.id w) raw)), w)
  if_limited-some none raw m w e = cc
  if_limited-some (some n) raw m w e = refl

  limited_lem :
      (raw : CachedLink) (m : ℕ) (w : W)
      → raw.max_clicks ≡ some m
      → apply_pending_clicks_for_enforcement deps (some raw) w
        ≡ (returned (some (with_clicks (get_pending_clicks raw.id w) raw)), w)
  limited_lem raw m w e =
      if_limited-some raw.max_clicks raw m w e
      ∙ ap (λ link. (returned (some link), w))
          (add_pending-with_clicks (get_pending_clicks raw.id w) raw)

  -- A request that fills the cache answers with the pending clicks counted once; the request that
  -- reads what it wrote counts them again, for it adds those pending then to a count that has them.
  pub filled-counts_twice :
      (raw : CachedLink) (m : ℕ) (w0 w1 w2 w3 w4 w5 w6 : W)
      → FillsCache raw m w0 w1 w2 w3 w4 w5
      → get_link_state code w5
        ≡ (returned (cached_state (with_clicks (get_pending_clicks raw.id w3) raw)), w6)
      → (get_link deps code w0 ≡ (
        returned (fetch_result false (some (with_clicks (get_pending_clicks raw.id w3) raw))),
        w5,
      ))
        × (get_link deps code w5 ≡ (
          returned (
              fetch_result true (
                some (
                  with_clicks
                    (get_pending_clicks raw.id w6)
                    (with_clicks (get_pending_clicks raw.id w3) raw)))),
          w6,
        ))
  unfolding get_link by_state fetch_with_stampede_protection fetch_from_database
  filled-counts_twice raw m w0 w1 w2 w3 w4 w5 w6 f hit = (
    rw (f.looked_up, f.won, f.ran _, f.found, limited_lem raw m w3 f.limited, f.written, f.released)
        refl,
    rw (hit, limited_lem (with_clicks (get_pending_clicks raw.id w3) raw) m w6 f.limited) refl,
  )

  handled_throws :
      (r : Outcome E LinkFetchResult × W) (e : E)
      → (handle_outcome r (λ _ w.
          bind_outcome
            (fetch_from_database deps code w)
            (λ link w'. (returned (fetch_result false link), w')))).0
        ≡ threw e
      → (v : W) × ((fetch_from_database deps code v).0 ≡ threw e)
  handled_throws (returned a, w) e h = cc
  handled_throws (threw x, w) e h = elim (Outcome-cases (fetch_from_database deps code w)) [
    | inl (link, w1, got) ↦ absurd (ground (arith, got))
    | inr (y, w1, got) ↦ (w, ground (arith, got))
  ]

  -- The only errors of `getLink` are those of a lookup in the database: whatever the cache or the
  -- lock throws, the link is read from the database instead.
  pub get_link-throws :
      (w : W) (e : E)
      → (get_link deps code w).0 ≡ threw e
      → (v : W) × ((fetch_from_database deps code v).0 ≡ threw e)
  unfolding get_link
  get_link-throws w e h =
      handled_throws (bind_outcome (get_link_state code w) (by_state deps code)) e h
