-- ===== src/UrlCheck/Tests.antt =====
-- Runs and instances for apps/api/src/server/modules/links/services/url-validator.ts.
use urlfy_cc.Common.{◌≡◌, ◌≢◌, refl, true, false, none, some, String, [], ◌∷◌, arith}
use urlfy_cc.Alias.{codes, matches}
use urlfy_cc.Ip.{trim_start, trim_end}
use urlfy_cc.Redirect.Service.{is_self_shortener_loop}
use urlfy_cc.UrlCheck.Hosts.{is_blocked_hostname, is_private_ip, normalize_domain, has_codes}
use urlfy_cc.UrlCheck.{
  is_self_shortener_host, valid, invalid, url_internal_blocked, BannedDomains, no_domains,
  add_domain, stage, block, load, validate, validate_async, validate_safe, is_self_shortener_target,
}
use urlfy_cc.UrlCheck.Memory.{urls, platform, services, start}
use urlfy_cc.UrlCheck.Safe.{IsAcceptable, IsPublicHost, accepted-IsSafe, target-eq-loop}
use urlfy_cc.UrlCheck.Fresh.{block_first-hides_list, Outage, here, load_fails, Outage-refuses}

accepted : (validate_safe platform none false services "example.org" start).0 ≡ valid
unfolding validate_safe validate_async load validate is_self_shortener_target is_self_shortener_host
    matches stage add_domain normalize_domain is_blocked_hostname is_private_ip trim_start trim_end
accepted = refl

rebound :
    (validate_safe platform none false services "inside.org" start).0 ≡ invalid url_internal_blocked
unfolding validate_safe validate_async load validate is_self_shortener_target is_self_shortener_host
    matches stage add_domain normalize_domain is_blocked_hostname is_private_ip trim_start trim_end
rebound = refl

accepted-IsSafe_example :
    (parsed : String) × ((load platform none false services false start).1.0.has_reliable_snapshot
      ≡ true)
    × IsAcceptable platform none false
        (load platform none false services false start).1.0
        "example.org"
        parsed
    × IsPublicHost platform none false services parsed
accepted-IsSafe_example = accepted-IsSafe platform none false services "example.org" start accepted

target-eq-loop_example :
    is_self_shortener_target platform (some "app") false "urlfy.cc"
    ≡ is_self_shortener_loop urls (some "app") "urlfy.cc"
target-eq-loop_example = target-eq-loop platform (some "app") false "urlfy.cc"

block_first-hides_list_example :
    validate_async platform none false services "evil.com" (block (codes "bad.org") 5 no_domains, 9)
    ≡ (
      validate platform none false (block (codes "bad.org") 5 no_domains) "evil.com",
      (block (codes "bad.org") 5 no_domains, 9),
    )
block_first-hides_list_example =
    block_first-hides_list platform none false services (codes "bad.org") 5 "evil.com" 9
      (omega arith)

-- A banned domain is accepted after that.
evil_accepted :
    (validate_async platform none false services "evil.com"
      (block (codes "bad.org") 5 no_domains, 9)).0
    ≡ valid
unfolding validate_async load block validate is_self_shortener_target is_self_shortener_host
    add_domain normalize_domain
evil_accepted = refl

abbrev listed : BannedDomains
listed = record {
  blocked_domains = codes "evil.com" ∷ [];
  loaded = true;
  last_load = 7;
  has_reliable_snapshot = true;
}

one_failure :
    Outage platform none false services
      (listed, 200000)
      (load platform none false services false (listed, 200000)).1
one_failure = load_fails false (listed, 200000) _ "down" refl (here _)

listed-banned : has_codes (normalize_domain (codes "www.evil.com")) listed.blocked_domains ≡ true
unfolding normalize_domain
listed-banned = refl

Outage-refuses_example :
    validate platform none false
      (load platform none false services false (listed, 200000)).1.0
      "www.evil.com"
    ≢ valid
Outage-refuses_example =
    Outage-refuses platform none false services "www.evil.com" "www.evil.com" (listed, 200000)
      (load platform none false services false (listed, 200000)).1 refl listed-banned one_failure
