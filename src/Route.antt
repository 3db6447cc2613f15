-- ===== src/Route.antt =====
-- The redirect handler `GET` of apps/web/src/app/r/[code]/route.ts. The two limit checks that it
-- starts together run one after the other, and what it starts without waiting runs to its end at once.
pub mod Token
pub mod Answer
pub mod Reservation
mod Tests
use Prim.Native.String.{◌++◌}
use urlfy_cc.Common.{
  ℕ, Bool, true, false, not, Option, none, some, String, if◌then◌else◌, truthy_text, truthy_number,
  or_else,
}
use urlfy_cc.Common.Effects.{Outcome, returned, threw, Eff, pure, catch, ◌>>=◌, ◌>>◌}
use urlfy_cc.Redirect.Link.{
  RedirectType, moved_301, found_302, RedirectError, not_found, expired, banned, inactive,
  max_clicks_reached, password_required, redirect_loop, RedirectResult,
}
use urlfy_cc.Redirect.Service.{RedirectResolveInput}

-- What `handleError` is called with.
pub data HandlerError : Type 0 where
  rate_limited internal_error unknown_error : HandlerError
  of_redirect : RedirectError → HandlerError

-- A response, without the headers that are the same in all of one kind.
pub record Response : Type 0 where
  pub status : ℕ
  pub location : Option String
  pub error_code : Option String
  pub retry_after : Option ℕ
  pub cache_status : Option String
  pub request_id : String

pub record Limit : Type 0 where
  pub allowed : Bool
  pub retry_after : Option ℕ

-- What the handler calls, for one request: `reserve`, `revert` and `enqueue` are the functions of
-- server/lib/redirect-events.ts, `accepts_url` tells which addresses `NextResponse.redirect` takes,
-- which throws `invalid_url` for another.
pub record RouteServices (W E : Type 0) : Type 0 where
  pub check_ip_limit : Eff W E Limit
  pub check_link_limit : String → Eff W E Limit
  pub unlock_cookie : String → Eff W E (Option String)
  pub verify_token : String → String → W → Bool
  pub track_request : Eff W E (Unit {0})
  pub resolve : RedirectResolveInput → Eff W E RedirectResult
  pub reserve : String → Eff W E (Option ℕ)
  pub revert : String → Eff W E (Unit {0})
  pub enqueue : String → String → Eff W E (Unit {0})
  pub accepts_url : String → Bool
  pub invalid_url : E

-- `getPublicBaseUrl`
abbrev pub get_public_base_url : Option String → String
get_public_base_url app_url = if truthy_text app_url then or_else app_url "" else "https://urlfy.cc"

abbrev pub error_response : ℕ → String → String → Response
error_response status error_code request_id = record {
  status = status;
  location = none;
  error_code = some error_code;
  retry_after = none;
  cache_status = none;
  request_id = request_id;
}

-- `if (retryAfter) headers['Retry-After'] = String(retryAfter)`
abbrev pub with_retry_after : Option ℕ → Response → Response
with_retry_after seconds r = if truthy_number seconds then record r { retry_after = seconds } else r

abbrev pub status_of : RedirectType → ℕ
status_of moved_301 = 301
status_of found_302 = 302

module _ {W E : Type 0} (services : RouteServices W E) (app_url : Option String)
    (request_id : String) where
  open services use {
    check_ip_limit, check_link_limit, unlock_cookie, verify_token, track_request, resolve, reserve,
    revert, enqueue, accepts_url, invalid_url,
  }

  -- `NextResponse.redirect`
  abbrev pub redirect_to : String → Response → Eff W E Response
  redirect_to url r w =
      if accepts_url url
      then (returned (record r { location = some url }), w)
      else (threw invalid_url, w)

  -- `handleError`
  unfoldable pub handle_error : HandlerError → String → Option ℕ → Eff W E Response
  handle_error (of_redirect not_found) code seconds =
      redirect_to (get_public_base_url app_url ++ "/404")
        (error_response 302 "NOT_FOUND" request_id)
  handle_error (of_redirect password_required) code seconds =
      redirect_to (get_public_base_url app_url ++ "/unlock/" ++ code)
        (error_response 302 "PASSWORD_REQUIRED" request_id)
  handle_error rate_limited code seconds =
      pure (with_retry_after seconds (error_response 429 "RATE_LIMITED" request_id))
  handle_error (of_redirect redirect_loop) code seconds =
      pure (error_response 421 "REDIRECT_LOOP" request_id)
  handle_error (of_redirect expired) code seconds = pure (error_response 410 "EXPIRED" request_id)
  handle_error (of_redirect inactive) code seconds = pure (error_response 410 "INACTIVE" request_id)
  handle_error (of_redirect max_clicks_reached) code seconds =
      pure (error_response 410 "MAX_CLICKS" request_id)
  handle_error (of_redirect banned) code seconds =
      pure (error_response 451 "LINK_BANNED" request_id)
  handle_error internal_error code seconds = pure (error_response 500 "INTERNAL_ERROR" request_id)
  handle_error unknown_error code seconds = pure (error_response 500 "INTERNAL_ERROR" request_id)

  abbrev pub is_given : {A : Type 0} → Option A → Bool
  is_given none = false
  is_given (some _) = true

  -- `reservePendingClick`
  abbrev pub reserve_pending_click : String → Eff W E Bool
  reserve_pending_click link_id = do next ← reserve link_id; pure (is_given next)

  -- `fireAndForget`: the error of the call is logged.
  abbrev pub fire_and_forget : Eff W E (Unit {0}) → Eff W E (Unit {0})
  fire_and_forget m w = (returned tt, (m w).1)

  -- The `catch` of `dispatchAnalytics`.
  abbrev pub revert_and_throw : Bool → String → E → Eff W E (Unit {0})
  revert_and_throw reserved link_id e = do
    (if reserved then revert link_id else pure tt)
    λ w. (threw e, w)

  -- `dispatchAnalytics`
  unfoldable pub dispatch_analytics : String → String → Bool → Eff W E (Unit {0})
  dispatch_analytics code link_id reserved =
      fire_and_forget (catch (enqueue code link_id) (revert_and_throw reserved link_id))

  abbrev pub final_redirect : RedirectResult → Eff W E Response
  final_redirect result =
      redirect_to (or_else result.url (get_public_base_url app_url ++ "/")) (record {
        status = status_of (or_else result.redirect_type found_302);
        location = none;
        error_code = none;
        retry_after = none;
        cache_status = some (if or_else result.cache_hit false then "HIT" else "MISS");
        request_id = request_id;
      })

  abbrev pub dispatch_and_redirect : String → RedirectResult → String → Bool → Eff W E Response
  dispatch_and_redirect code result link_id reserved = do
    dispatch_analytics code link_id reserved
    final_redirect result

  abbrev pub after_reservation : String → RedirectResult → String → Bool → Eff W E Response
  after_reservation code result link_id reserved =
      if reserved
      then dispatch_and_redirect code result link_id true
      else handle_error internal_error code none

  abbrev pub reserve_and_redirect : String → RedirectResult → String → Eff W E Response
  reserve_and_redirect code result link_id = do
    reserved ← reserve_pending_click link_id
    after_reservation code result link_id reserved

  abbrev pub failure : RedirectResult → HandlerError
  failure result = elim result.error [ none ↦ unknown_error | some e ↦ of_redirect e ]

  -- From the answer of the resolver on.
  unfoldable pub answer : String → RedirectResult → Eff W E Response
  answer code result =
      let link_id = or_else result.link_id "" in
      if not result.success
      then handle_error (failure result) code none
      else (if truthy_text result.link_id
          then (if or_else result.requires_click_reservation false
              then reserve_and_redirect code result link_id
              else dispatch_and_redirect code result link_id false)
          else final_redirect result)

  abbrev pub bypass_password : String → Option String → W → Bool
  bypass_password code cookie w =
      if truthy_text cookie then verify_token (or_else cookie "") code w else false

  abbrev pub resolve_and_answer : String → Option String → Eff W E Response
  resolve_and_answer code cookie w =
      let input : RedirectResolveInput = record {
        link_code = code;
        bypass_password = some (bypass_password code cookie w);
      } in
      (fire_and_forget track_request >> (resolve input >>= answer code)) w

  abbrev pub admitted : String → Limit → Limit → Eff W E Response
  admitted code ip_limit link_limit =
      if not ip_limit.allowed
      then handle_error rate_limited code ip_limit.retry_after
      else (if not link_limit.allowed
          then handle_error rate_limited code link_limit.retry_after
          else unlock_cookie code >>= resolve_and_answer code)

  -- `GET`
  unfoldable pub get : String → Eff W E Response
  get code =
      catch
        (do
          ip_limit ← check_ip_limit
          link_limit ← check_link_limit code
          admitted code ip_limit link_limit)
        (λ _. handle_error internal_error code none)
