-- ===== src/UrlCheck/Memory.antt =====
-- The platform and the services in memory, for runs of
-- apps/api/src/server/modules/links/services/url-validator.ts.
use package.text.Mathlib.Text.{◌==◌ as str_eq}
use urlfy_cc.Common.{ℕ, Bool, false, some, String, List, [], ◌∷◌, ◌==◌, ltb, if◌then◌else◌}
use urlfy_cc.Common.Effects.{returned, threw}
use urlfy_cc.Alias.{codes}
use urlfy_cc.Ip.{is_digit}
use urlfy_cc.Redirect.Service.{UrlApi}
use urlfy_cc.UrlCheck.{BannedDomains, no_domains, ValidatorServices, Platform}

-- An address is its host, with a path of two parts.
abbrev pub urls : UrlApi String
urls = record {
  parse = λ s. some s;
  hostname = λ u. u;
  origin = λ u. u;
  pathname = λ u. "/a/b";
  set_param = λ k v u. u;
  to_text = λ u. u;
}

abbrev pub starts_with_digit : List ℕ → Bool
starts_with_digit [] = false
starts_with_digit (c ∷ cs) = is_digit c

abbrev pub starts_with_one : List ℕ → Bool
starts_with_one [] = false
starts_with_one (c ∷ cs) = c == b'1'

-- The addresses that begin with 1 stand for the special ones.
abbrev pub platform : Platform String
platform = record {
  urls = urls;
  protocol = λ u. "https:";
  is_ip = λ ip. if starts_with_digit ip then 4 else 0;
  check = λ entries ip family. starts_with_one ip;
}

-- The world is the time; the database answers before 100000.
abbrev pub services : ValidatorServices ℕ String
services = record {
  loader = λ w. (if ltb w 100000 then returned (codes "evil.com" ∷ []) else threw "down", w);
  resolve_hostname = λ host w. (
    returned ((if str_eq host "inside.org" then codes "10.0.0.7" else codes "93.184.216.34") ∷ []),
    w,
  );
  insert_banned = λ d w. (returned tt, w);
  now = λ w. w;
  mentions_timeout = λ e. false;
}

abbrev pub start : BannedDomains × ℕ
start = (no_domains, 7)
