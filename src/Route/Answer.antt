-- ===== src/Route/Answer.antt =====
-- What `GET` of apps/web/src/app/r/[code]/route.ts answers.
use Prim.Native.String.{◌++◌}
use urlfy_cc.Common.{
  ℕ, ◌≡◌, ◌≢◌, ◌⊎◌, true, false, Option, none, some, String, truthy_text, or_else,
}
use urlfy_cc.Common.Effects.{returned}
use urlfy_cc.Redirect.Link.{RedirectResult}
use urlfy_cc.Route.{Response, Limit, RouteServices, get_public_base_url, bypass_password}

abbrev pub IsCoded : Response → Type 0
IsCoded r = r.error_code ≢ none

module _ {W E : Type 0} (services : RouteServices W E) (app_url : Option String)
    (request_id : String) where
  open services use {check_ip_limit, check_link_limit, resolve, reserve, accepts_url}

  -- A click is reserved, unless the answer names no link or asks for no reservation.
  pub data IsReserved (result : RedirectResult) : Type 0 where
    no_link : truthy_text result.link_id ≡ false → IsReserved result
    not_required : or_else result.requires_click_reservation false ≡ false → IsReserved result
    reserved :
        (v v' : W) (n : ℕ)
        → reserve (or_else result.link_id "") v ≡ (returned (some n), v')
        → IsReserved result

  -- The way of a request up to the answer of the resolver.
  pub record IsResolved (code : String) (result : RedirectResult) : Type 0 where
    pub ip_allowed :
        (w w' : W) × (limit : Limit) × (check_ip_limit w ≡ (returned limit, w'))
        × (limit.allowed ≡ true)
    pub link_allowed :
        (w w' : W) × (limit : Limit) × (check_link_limit code w ≡ (returned limit, w'))
        × (limit.allowed ≡ true)
    pub cookie : Option String
    pub read_at : W
    pub cookie_read : (w : W) × (services.unlock_cookie code w ≡ (returned cookie, read_at))
    pub asked :
        (w w' : W) × (resolve
            (record {
              link_code = code;
              bypass_password =
                  some (bypass_password services app_url request_id code cookie read_at);
            })
            w
          ≡ (returned result, w'))

  -- What stands behind a response that sends the visitor to the link's address.
  pub record Redirects (code : String) (r : Response) : Type 0 where
    pub result : RedirectResult
    pub is_resolved : IsResolved code result
    pub success : result.success ≡ true
    pub is_reserved : IsReserved result
    pub location : r.location ≡ some (or_else result.url (get_public_base_url app_url ++ "/"))

  abbrev pub IsExplained : String → Response → Type 0
  IsExplained code r = IsCoded r ⊎ Redirects code r
