-- ===== src/Ip/Tests.antt =====
-- Runs and instances for packages/telemetry/src/ip.ts.
use urlfy_cc.Common.{ℕ, ◌≡◌, refl, Bool, false, some, List, [], ◌∷◌, ◌++◌, arith}
use urlfy_cc.Alias.{codes}
use urlfy_cc.Ip.{
  split_on, trim_start, trim_end, is_valid_ip, valid_candidates, resolve_forwarded_for_ip,
}
use urlfy_cc.Ip.Forwarded.{forwarded_for-resists}

abbrev no_ipv6 : List ℕ → Bool
no_ipv6 cs = false

two_valid :
    valid_candidates no_ipv6 (codes "9.9.9.9, 10.0.0.1") ≡ codes "9.9.9.9" ∷ codes "10.0.0.1" ∷ []
unfolding valid_candidates is_valid_ip split_on trim_start trim_end
two_valid = refl

forwarded_for-resists_example :
    resolve_forwarded_for_ip no_ipv6
      (some (codes "1.2.3.4" ++ (b',' ∷ codes "9.9.9.9, 10.0.0.1")))
      1
    ≡ resolve_forwarded_for_ip no_ipv6 (some (codes "9.9.9.9, 10.0.0.1")) 1
forwarded_for-resists_example =
    forwarded_for-resists no_ipv6 (codes "1.2.3.4") (codes "9.9.9.9, 10.0.0.1") 1
      (rw two_valid (omega arith))

the_visitor :
    resolve_forwarded_for_ip no_ipv6 (some (codes "1.2.3.4,9.9.9.9, 10.0.0.1")) 1
    ≡ some (codes "9.9.9.9")
unfolding resolve_forwarded_for_ip valid_candidates is_valid_ip split_on trim_start trim_end
the_visitor = refl
