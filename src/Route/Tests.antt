-- ===== src/Route/Tests.antt =====
-- Runs and instances for apps/web/src/app/r/[code]/route.ts.
use urlfy_cc.Common.{ℕ, suc, ◌-◌, ◌≡◌, refl, ◌↔◌, ◌⊎◌, true, false, none, some, String, arith}
use urlfy_cc.Common.Effects.{returned, threw}
use urlfy_cc.Alias.{codes}
use urlfy_cc.Redirect.Link.{found_302, RedirectResult}
use urlfy_cc.Route.{Limit, RouteServices, answer}
use urlfy_cc.Route.Token.{TokenApi, split_dots, verify_unlock_token}
use urlfy_cc.Route.Token.Signed.{IsUnlockToken, verify_unlock_token_iff}
use urlfy_cc.Route.Reservation.{CountsPending, answer-pending}

abbrev resolution : RedirectResult
resolution = record {
  success = true;
  url = some "https://example.org/";
  redirect_type = some found_302;
  error = none;
  link_id = some "l1";
  cache_hit = some false;
  requires_click_reservation = some true;
}

abbrev free : Limit
free = record { allowed = true; retry_after = none }

-- The world is the counter of pending clicks of the one link; the queue is down.
abbrev services : RouteServices ℕ String
services = record {
  check_ip_limit = λ w. (returned free, w);
  check_link_limit = λ code w. (returned free, w);
  unlock_cookie = λ code w. (returned none, w);
  verify_token = λ token code w. false;
  track_request = λ w. (threw "no metrics", w);
  resolve = λ input w. (returned resolution, w);
  reserve = λ id w. (returned (some (suc w)), suc w);
  revert = λ id w. (returned tt, w - 1);
  enqueue = λ code id w. (threw "queue is down", w);
  accepts_url = λ url. true;
  invalid_url = "invalid";
}

counter : CountsPending services none "q1" "l1" (λ w. w)
counter = record {
  reserve-adds = λ n w w' e. ground arith;
  revert-takes = λ w. refl;
  enqueue-keeps = λ code w. refl;
}

answer-pending_example :
    (((services.enqueue "abc" "l1" 5).0 ≡ returned tt)
      × ((answer services none "q1" "abc" resolution 4).1 ≡ 5))
    ⊎ ((e : String) × ((services.enqueue "abc" "l1" 5).0 ≡ threw e)
        × ((answer services none "q1" "abc" resolution 4).1 ≡ 4))
answer-pending_example =
    answer-pending services none "q1" "l1" (λ w. w) counter "abc" resolution 5 4 5 refl refl
      (λ e. cc) refl refl

-- A hash that is the secret's characters, and payloads that all unlock "abc" until second 9.
abbrev tokens : TokenApi
tokens = record {
  hmac_digest = λ secret text. codes secret;
  from_base64url = λ text. text;
  parse_payload = λ bytes. some (record { code = some "abc"; type = some "unlock"; exp = some 9 });
}

verify_unlock_token_iff_example :
    (verify_unlock_token tokens (some "key") 8000 "h.p.key" "abc" ≡ true)
    ↔ IsUnlockToken tokens 8000 "key" "abc" (split_dots (codes "h.p.key"))
verify_unlock_token_iff_example =
    verify_unlock_token_iff tokens 8000 "key" "h.p.key" "abc" (λ e. cc)

unlocked : verify_unlock_token tokens (some "key") 8000 "h.p.key" "abc" ≡ true
unfolding verify_unlock_token split_dots
unlocked = refl

expired_token : verify_unlock_token tokens (some "key") 10000 "h.p.key" "abc" ≡ false
unfolding verify_unlock_token split_dots
expired_token = refl
