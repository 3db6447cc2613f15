-- ===== src/UrlCheck/Hosts.antt =====
-- The host names and addresses that apps/api/src/server/modules/links/services/url-validator.ts
-- refuses, over code points. A host name of a parsed address is ASCII.
use urlfy_cc.Common.{
  ℕ, Bool, true, false, ◌&&◌, ◌||◌, not, Option, none, some, String, List, [], ◌∷◌, map, any, all,
  ◌==◌, leb, length, if◌then◌else◌,
}
use urlfy_cc.Alias.{codes, is_alphanumeric}
use urlfy_cc.Ip.{trim, is_digit, split_on, is_filled}
use urlfy_cc.Redirect.Service.{lower_code, same_codes}

-- What is added to the `BlockList` of the platform.
pub data BlockEntry : Type 0 where
  subnet4 subnet6 : String → ℕ → BlockEntry
  address4 address6 : String → BlockEntry

-- `SPECIAL_USE_IP_BLOCK_LIST`
abbrev pub special_use_ip_block_list : List BlockEntry
special_use_ip_block_list =
    subnet4 "0.0.0.0" 8
    ∷ subnet4 "10.0.0.0" 8
    ∷ subnet4 "100.64.0.0" 10
    ∷ subnet4 "127.0.0.0" 8
    ∷ subnet4 "169.254.0.0" 16
    ∷ subnet4 "172.16.0.0" 12
    ∷ subnet4 "192.168.0.0" 16
    ∷ subnet4 "198.18.0.0" 15
    ∷ subnet4 "224.0.0.0" 4
    ∷ subnet4 "240.0.0.0" 4
    ∷ subnet6 "64:ff9b::" 96
    ∷ subnet6 "64:ff9b:1::" 48
    ∷ subnet6 "100::" 64
    ∷ subnet6 "2001::" 23
    ∷ subnet6 "2001:2::" 48
    ∷ subnet6 "2001:10::" 28
    ∷ subnet6 "fe80::" 10
    ∷ subnet6 "fc00::" 7
    ∷ subnet6 "ff00::" 8
    ∷ subnet6 "2001:db8::" 32
    ∷ subnet6 "2002::" 16
    ∷ address4 "255.255.255.255"
    ∷ address6 "::"
    ∷ address6 "::1"
    ∷ []

-- `BLOCKED_HOSTNAMES`
abbrev pub blocked_hostnames : List String
blocked_hostnames =
    "localhost" ∷ "localhost.localdomain" ∷ "metadata.google.internal" ∷ "169.254.169.254"
    ∷ "metadata.goog" ∷ []

-- The ends that `INTERNAL_TLD_PATTERNS` look for.
abbrev pub internal_tlds : List String
internal_tlds = ".internal" ∷ ".local" ∷ ".localdomain" ∷ ".service" ∷ []

-- `BLOCKED_SHORTENERS`
abbrev pub blocked_shorteners : List String
blocked_shorteners =
    "bit.ly" ∷ "tinyurl.com" ∷ "t.co" ∷ "goo.gl" ∷ "ow.ly" ∷ "is.gd" ∷ "buff.ly" ∷ "adf.ly"
    ∷ "shorturl.at" ∷ "tiny.cc" ∷ "rb.gy" ∷ "cutt.ly" ∷ "short.io" ∷ "rebrand.ly" ∷ "bl.ink" ∷ []

abbrev pub has_codes : List ℕ → List (List ℕ) → Bool
has_codes d ds = any (same_codes d) ds

abbrev pub ends_with : List ℕ → List ℕ → Bool
ends_with end [] = same_codes end []
ends_with end (c ∷ cs) = same_codes end (c ∷ cs) || ends_with end cs

-- `.replace(/^www\./, '')`
abbrev pub strip_www : List ℕ → List ℕ
strip_www (a ∷ (b ∷ (c ∷ (d ∷ rest)))) =
    if same_codes (a ∷ b ∷ c ∷ d ∷ []) (codes "www.") then rest else a ∷ b ∷ c ∷ d ∷ rest
strip_www cs = cs

-- `.replace(/^www\./, '').toLowerCase()`
unfoldable pub normalize_domain : List ℕ → List ℕ
normalize_domain cs = map lower_code (strip_www cs)

-- `isBlockedHostname`
unfoldable pub is_blocked_hostname : List ℕ → Bool
is_blocked_hostname hostname =
    let lower = map lower_code hostname in
    has_codes lower (map codes blocked_hostnames)
    || any (λ end. ends_with (codes end) lower) internal_tlds

abbrev pub strip_open : List ℕ → List ℕ
strip_open [] = []
strip_open (c ∷ cs) = if c == b'[' then cs else c ∷ cs

abbrev pub strip_close : List ℕ → List ℕ
strip_close [] = []
strip_close (c ∷ cs) = if c == b']' && not (is_filled cs) then [] else c ∷ strip_close cs

-- `[\w.-]`
abbrev pub is_zone_character : ℕ → Bool
is_zone_character c = is_alphanumeric c || (c == b'_' || (c == b'.' || c == b'-'))

-- `.replace(/%[\w.-]+$/, '')`
abbrev pub strip_zone : List ℕ → List ℕ
strip_zone [] = []
strip_zone (c ∷ cs) =
    if c == b'%' && (is_filled cs && all is_zone_character cs) then [] else c ∷ strip_zone cs

abbrev pub normalize_ip : List ℕ → List ℕ
normalize_ip ip = map lower_code (strip_zone (strip_close (strip_open (trim ip))))

-- `^::ffff:(\d{1,3}(?:\.\d{1,3}){3})$`: the part in parentheses.
abbrev pub drop_prefix : List ℕ → List ℕ → Option (List ℕ)
drop_prefix [] cs = some cs
drop_prefix (p ∷ ps) [] = none
drop_prefix (p ∷ ps) (c ∷ cs) = if p == c then drop_prefix ps cs else none

abbrev pub is_short_number : List ℕ → Bool
is_short_number part = is_filled part && (leb (length part) 3 && all is_digit part)

abbrev pub if_quad : Option (List ℕ) → Option (List ℕ)
if_quad none = none
if_quad (some rest) =
    let parts = split_on b'.' rest in
    if length parts == 4 && all is_short_number parts then some rest else none

abbrev pub mapped_ipv4 : List ℕ → Option (List ℕ)
mapped_ipv4 cs = if_quad (drop_prefix (codes "::ffff:") cs)

-- `isIP`, which answers 4, 6 or 0, and the `check` of a `BlockList`, of the platform; the family of
-- the address is 4 or 6.
module _ (is_ip : List ℕ → ℕ) (check : List BlockEntry → List ℕ → ℕ → Bool) where
  -- The call for a mapped address, four numbers with points, which are no mapped address again.
  abbrev pub is_private_quad : List ℕ → Bool
  is_private_quad quad =
      if is_ip quad == 4
      then check special_use_ip_block_list quad 4
      else (if is_ip quad == 6 then check special_use_ip_block_list quad 6 else false)

  abbrev pub check_ipv6 : List ℕ → Option (List ℕ) → Bool
  check_ipv6 normalized none = check special_use_ip_block_list normalized 6
  check_ipv6 normalized (some quad) = is_private_quad quad

  -- `isPrivateIP`
  unfoldable pub is_private_ip : List ℕ → Bool
  is_private_ip ip =
      let normalized = normalize_ip ip in
      if same_codes normalized (codes "localhost")
      then true
      else (if is_ip normalized == 4
          then check special_use_ip_block_list normalized 4
          else (if is_ip normalized == 6
              then check_ipv6 normalized (mapped_ipv4 normalized)
              else false))
