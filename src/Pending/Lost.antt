-- ===== src/Pending/Lost.antt =====
-- Clicks of requests that apps/web/src/app/r/[code]/route.ts refuses: its reservations over the counter
-- of packages/cache/src/realtime-clicks.ts while EXPIRE fails.
use urlfy_cc.Common.{
  ℕ, zero, suc, ◌+◌, ◌≡◌, refl, ap, ◌∙◌, sym, true, Option, none, some, String, List, [], ◌∷◌,
  arith, truthy_text,
}
use urlfy_cc.Common.Int.{ℤ, pos, plus_ℕ, pos_part}
use urlfy_cc.Common.Effects.{Outcome, returned, threw, Eff, pure, ◌>>=◌}
use urlfy_cc.Redirect.Link.{RedirectResult}
use urlfy_cc.Route.{RouteServices, Response, error_response, answer, handle_error}
use urlfy_cc.Pending.{
  drain_pending_clicks, PendingRedis, pending_clicks_key, pending_clicks_ttl, normalize_amount,
  increment_pending_clicks,
}
use urlfy_cc.Pending.Counter.{PendingLaws}

-- An increment whose EXPIRE throws answers `none`, and the counter has grown all the same.
unexpired-counts :
    {W E : Type 0} (redis : PendingRedis W E) (count : String → W → ℤ)
    (laws : PendingLaws redis count) (link_id : String) (amount : Option ℤ) (v : ℤ) (e : E)
    (w w1 w2 : W)
    → redis.incrby (pending_clicks_key link_id) (normalize_amount amount) w ≡ (returned v, w1)
    → redis.expire (pending_clicks_key link_id) pending_clicks_ttl w1 ≡ (threw e, w2)
    → (increment_pending_clicks redis link_id amount w ≡ (returned none, w2))
      × (count (pending_clicks_key link_id) w2
          ≡ plus_ℕ (count (pending_clicks_key link_id) w) (normalize_amount amount))
unfolding increment_pending_clicks
unexpired-counts redis count laws link_id amount v e w w1 w2 added failed = (
  rw added (rw failed refl),
  ap (λ r. count (pending_clicks_key link_id) r.1) (sym failed)
      ∙ laws.expire-keeps (pending_clicks_key link_id) pending_clicks_ttl w1
          (pending_clicks_key link_id)
      ∙ (laws.incrby-adds (pending_clicks_key link_id) (normalize_amount amount) v w w1 added).1,
)

-- A number as the route takes it.
abbrev pub as_count : Option ℤ → Option ℕ
as_count none = none
as_count (some z) = some (pos_part z)

module _ {W E : Type 0} (redis : PendingRedis W E) (services : RouteServices W E) where
  -- `reserveRedirectPendingClick` and `revertRedirectPendingClick` of the route's redirect-events.ts;
  -- the route only asks whether there is a number.
  abbrev pub reserve_redirect_pending_click : String → Eff W E (Option ℕ)
  reserve_redirect_pending_click link_id =
      increment_pending_clicks redis link_id (some (pos 1)) >>= λ v. pure (as_count v)

  abbrev pub revert_redirect_pending_click : String → Eff W E (Unit {0})
  revert_redirect_pending_click link_id =
      drain_pending_clicks redis link_id (some (pos 1)) >>= λ _. pure tt

  abbrev pub with_counter : RouteServices W E
  with_counter = record services {
    reserve = reserve_redirect_pending_click;
    revert = revert_redirect_pending_click;
  }

  module _ (app_url : Option String) (request_id code : String) (result : RedirectResult) where
    -- The answers to so many requests for the resolved link, one after the other.
    unfoldable pub answers : ℕ → W → List (Outcome E Response) × W
    answers zero w = ([], w)
    answers (suc n) w =
        let (r, w1) = answer with_counter app_url request_id code result w in
        let (rs, w2) = answers n w1 in (r ∷ rs, w2)

    abbrev pub all_refused : ℕ → List (Outcome E Response)
    all_refused zero = []
    all_refused (suc n) = returned (error_response 500 "INTERNAL_ERROR" request_id) ∷ all_refused n

    module _ (count : String → W → ℤ) (laws : PendingLaws redis count) (link_id : String)
        (success : result.success ≡ true) (linked : result.link_id ≡ some link_id)
        (named : truthy_text (some link_id) ≡ true)
        (required : result.requires_click_reservation ≡ some true)
        (adds : (n : ℕ) (w : W)
          → (v : ℤ) × (w' : W) × (redis.incrby (pending_clicks_key link_id) n w ≡ (returned v, w')))
        (fails : (w : W)
          → (e : E) × (w' : W) × (redis.expire (pending_clicks_key link_id) pending_clicks_ttl w
              ≡ (threw e, w'))) where
      refused :
          (c : ℕ) (w : W)
          → count (pending_clicks_key link_id) w ≡ pos c
          → (w' : W) × (answer with_counter app_url request_id code result w
              ≡ (returned (error_response 500 "INTERNAL_ERROR" request_id), w'))
            × (count (pending_clicks_key link_id) w' ≡ pos (c + 1))
      unfolding answer handle_error
      refused c w start =
          let (v, w1, added) = adds 1 w in
          let (e, w2, failed) = fails w1 in
          let (none_given, grown) =
            unexpired-counts redis count laws link_id (some (pos 1)) v e w w1 w2 added failed in
          (
            w2,
            rw (success, linked, named, required, none_given) refl,
            grown ∙ ap (λ z. plus_ℕ z 1) start,
          )

      -- While INCRBY is answered and EXPIRE throws, every request for a link that needs a reservation
      -- is refused with the status 500, and every one leaves a pending click, of a visitor that was
      -- never sent on: after `n` of them the counter of the link has grown by `n`.
      pub refused-leaves_clicks :
          (n c : ℕ) (w : W)
          → count (pending_clicks_key link_id) w ≡ pos c
          → ((answers n w).0 ≡ all_refused n)
            × (count (pending_clicks_key link_id) (answers n w).1 ≡ pos (c + n))
      unfolding answers
      refused-leaves_clicks zero c w start = (refl, start ∙ ap pos (omega arith))
      refused-leaves_clicks (suc n) c w start =
          let (w1, answered, grown) = refused c w start in
          let (rest, sum) = refused-leaves_clicks n (c + 1) w1 grown in
          rw answered (rw rest refl, sum ∙ ap pos (omega arith))
