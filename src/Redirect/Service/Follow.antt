-- ===== src/Redirect/Service/Follow.antt =====
-- What `resolve` of packages/redirect-domain/src/service.ts answers, down to the cache and the
-- database.
use urlfy_cc.Common.{
  ℕ, ◌≡◌, refl, ◌⊎◌, inl, inr, Bool, true, false, Option, none, some, String, arith, truthy_text,
  or_else, Bool-cases, ap, sym, subst, ◌∙◌,
}
use urlfy_cc.Common.Effects.{returned, Outcome-cases, returned_injective, bind_outcome, Ensures-eq}
use urlfy_cc.Redirect.Link.{CachedLink, RedirectResult}
use urlfy_cc.Redirect.Validator.{validate_link}
use urlfy_cc.Redirect.Validator.Rules.{IsOpen, validate_link_iff}
use urlfy_cc.Redirect.Fetcher.{FetcherDependencies, fetch_result, get_link}
use urlfy_cc.Redirect.Fetcher.Layers.{IsCounted, RunsOperation, Explains, get_link-Explains}
use urlfy_cc.Redirect.Service.{
  UrlApi, build_final_url, is_self_shortener_loop, RedirectResolveInput,
  RedirectServiceDependencies, followed, resolve_link, resolve_found, resolve_fetched, resolve,
  default_services,
}

module _ {W E Url : Type 0} (urls : UrlApi Url) (app_url : Option String)
    (deps : FetcherDependencies W E) (parse_date : String → Option ℕ) (clock : W → ℕ) where
  abbrev services : RedirectServiceDependencies W E
  services = default_services deps urls parse_date clock

  -- A link that is followed: open at the time, with its password given if it has one, and with an
  -- address that does not lead back.
  pub record IsFollowed (input : RedirectResolveInput) (w : W) (hit : Bool) (link : CachedLink)
      (r : RedirectResult) : Type 0 where
    pub open_link : IsOpen parse_date (clock w) link
    pub unlocked :
        (truthy_text link.password_hash ≡ false) ⊎ (or_else input.bypass_password false ≡ true)
    pub leads_away : is_self_shortener_loop urls app_url (build_final_url urls link) ≡ false
    pub answer : r ≡ followed (build_final_url urls link) hit link

  resolve_link-success :
      (input : RedirectResolveInput) (hit : Bool) (link : CachedLink) (w : W)
      → (resolve_link urls app_url services
          (or_else input.bypass_password false)
          hit
          link
          w).success
        ≡ true
      → IsFollowed input w hit link
          (resolve_link urls app_url services (or_else input.bypass_password false) hit link w)
  unfolding resolve_link
  resolve_link-success input hit link w ok =
      elim (Bool-cases
        (validate_link parse_date (clock w) link (or_else input.bypass_password false)).valid) [
          | inr bad ↦ absurd (ground arith)
          | inl valid ↦
              let (is_open, password) =
                (validate_link_iff parse_date (clock w) link
                    (or_else input.bypass_password false)).0
                  valid in
              record {
                open_link = is_open;
                unlocked = password;
                leads_away = ground arith;
                answer = ground arith;
              }
        ]

  -- The link that was followed, and the time at which it was checked.
  pub record Followed (input : RedirectResolveInput) (r : RedirectResult) : Type 0 where
    pub link : CachedLink
    pub hit : Bool
    pub checked : W
    pub counted_link : IsCounted deps input.link_code link
    pub followed_link : IsFollowed input checked hit link r

  not_banned_code :
      (input : RedirectResolveInput) (w : W) (hit : Bool) (link : CachedLink) (r : RedirectResult)
      → IsFollowed input w hit link r
      → Explains deps input.link_code (some link)
      → IsCounted deps input.link_code link
  not_banned_code input w hit link r f (inl counted) = counted
  not_banned_code input w hit link r f (inr (code, same)) =
      absurd (cc (f.open_link.allowed, ap (λ l. l.is_banned) same))

  resolve_found-success :
      (input : RedirectResolveInput) (hit : Bool) (link : Option CachedLink) (w : W)
      → Explains deps input.link_code link
      → (resolve_found urls app_url services
          (or_else input.bypass_password false)
          hit
          link
          w).success
        ≡ true
      → Followed input
          (resolve_found urls app_url services (or_else input.bypass_password false) hit link w)
  resolve_found-success input hit none w known ok = cc
  resolve_found-success input hit (some link) w known ok =
      let f = resolve_link-success input hit link w ok in
      record {
        link = link;
        hit = hit;
        checked = w;
        counted_link = not_banned_code input w hit link _ f known;
        followed_link = f;
      }

  -- A redirect is answered only for a link that the cache or the database has for the code, with its
  -- pending clicks counted if it has a limit: active, not banned, not expired and below its limit
  -- at the time of the check, with its password given if it has one, and with a final address that
  -- is no redirect loop; the answer is that address with the link's type, its id, and the demand to
  -- reserve a click exactly if the link has a limit. The circuit breaker is to return only what its
  -- operation returned.
  pub resolve-success :
      (input : RedirectResolveInput) (w : W) (r : RedirectResult)
      → RunsOperation deps input.link_code
      → (resolve urls app_url services input w).0 ≡ returned r
      → r.success ≡ true
      → Followed input r
  unfolding resolve
  resolve-success input w r runs e ok = elim (Outcome-cases (get_link deps input.link_code w)) [
    | inr (x, w1, failed) ↦ absurd (ground (arith, failed))
    | inl (fetched, w1, got) ↦
        let same = returned_injective (
          ap
            (λ q.
              (bind_outcome q (λ f v. (
                returned (
                    resolve_fetched urls app_url services (or_else input.bypass_password false) f
                      v),
                v,
              ))).0)
            (sym got)
          ∙ e) in
        subst (Followed input) same (
          resolve_found-success input fetched.cache_hit fetched.link w1
            (Ensures-eq (λ f. Explains deps input.link_code f.link)
              (get_link deps input.link_code w) fetched
              (get_link-Explains deps input.link_code runs w) (ap (λ q. q.0) got))
            (ap (λ q. q.success) same ∙ ok))
  ]

  -- A link that is found is followed, with its final address, type and id as the answer, when it is
  -- active, not banned, not expired and below its limit at that time, its password is given if it has
  -- one, and its final address is no redirect loop.
  pub resolve-follows :
      (input : RedirectResolveInput) (link : CachedLink) (hit : Bool) (w w' : W)
      → get_link deps input.link_code w ≡ (returned (fetch_result hit (some link)), w')
      → IsOpen parse_date (clock w') link
      → (truthy_text link.password_hash ≡ false) ⊎ (or_else input.bypass_password false ≡ true)
      → is_self_shortener_loop urls app_url (build_final_url urls link) ≡ false
      → resolve urls app_url services input w
        ≡ (returned (followed (build_final_url urls link) hit link), w')
  unfolding resolve resolve_link
  resolve-follows input link hit w w' found is_open password away =
      let valid =
        (validate_link_iff parse_date (clock w') link (or_else input.bypass_password false)).1
          (is_open, password) in
      rw (found, valid, away) refl
