-- ===== src/Ip.antt =====
-- The address of a client, packages/telemetry/src/ip.ts: which header is believed behind a trusted
-- proxy. Header values are lists of code points; the list of trusted networks and the platform's URL
-- parser are parameters.
pub mod Forwarded
mod Tests
use urlfy_cc.Common.{
  ℕ, ◌+◌, ◌-◌, ◌*◌, Bool, true, false, ◌&&◌, ◌||◌, not, Option, none, some, List, [], ◌∷◌, ◌==◌,
  leb, ltb, if◌then◌else◌, length, get_elem?, keep, all, map, max,
}

abbrev pub onto_first : ℕ → List (List ℕ) → List (List ℕ)
onto_first c [] = (c ∷ []) ∷ []
onto_first c (part ∷ parts) = (c ∷ part) ∷ parts

-- `value.split(separator)`
unfoldable pub split_on : ℕ → List ℕ → List (List ℕ)
split_on sep [] = [] ∷ []
split_on sep (c ∷ cs) =
    let rest = split_on sep cs in if c == sep then [] ∷ rest else onto_first c rest

-- The white space that a header value, which has bytes, can hold.
abbrev pub is_space : ℕ → Bool
is_space c = (c == 32 || c == 160) || (leb 9 c && leb c 13)

unfoldable pub trim_start : List ℕ → List ℕ
trim_start [] = []
trim_start (c ∷ cs) = if is_space c then trim_start cs else c ∷ cs

unfoldable pub trim_end : List ℕ → List ℕ
trim_end [] = []
trim_end (c ∷ cs) = elim (trim_end cs) [
  | [] ↦ (if is_space c then [] else c ∷ [])
  | d ∷ ds ↦ c ∷ (d ∷ ds)
]

abbrev pub trim : List ℕ → List ℕ
trim cs = trim_end (trim_start cs)

abbrev pub is_filled : List ℕ → Bool
is_filled [] = false
is_filled (c ∷ cs) = true

abbrev pub is_digit : ℕ → Bool
is_digit c = leb b'0' c && leb c b'9'

-- `Number.parseInt` of digits.
abbrev pub digits_value : ℕ → List ℕ → ℕ
digits_value n [] = n
digits_value n (c ∷ cs) = digits_value (n * 10 + (c - b'0')) cs

-- `\d{1,3}`
abbrev pub is_octet : List ℕ → Bool
is_octet cs = (leb 1 (length cs) && leb (length cs) 3) && all is_digit cs

abbrev pub has_octet_value : List ℕ → Bool
has_octet_value cs = leb (digits_value 0 cs) 255

-- `isValidIp`; `is_ipv6` is the test of the platform's URL parser for an address in brackets.
unfoldable pub is_valid_ip : (List ℕ → Bool) → List ℕ → Bool
is_valid_ip is_ipv6 ip =
    let octets = split_on b'.' ip in
    if length octets == 4 && all is_octet octets then all has_octet_value octets else is_ipv6 ip

module _ (is_ipv6 : List ℕ → Bool) where
  -- `normalizeTrustedIp`
  abbrev pub normalize_trusted_ip : Option (List ℕ) → Option (List ℕ)
  normalize_trusted_ip none = none
  normalize_trusted_ip (some value) =
      if is_filled (trim value) && is_valid_ip is_ipv6 (trim value) then some (trim value) else none

  unfoldable pub valid_candidates : List ℕ → List (List ℕ)
  valid_candidates value =
      keep (is_valid_ip is_ipv6) (keep is_filled (map trim (split_on b',' value)))

  -- `resolveForwardedForIp`; without a valid candidate the first is missing.
  unfoldable pub resolve_forwarded_for_ip : Option (List ℕ) → ℕ → Option (List ℕ)
  resolve_forwarded_for_ip none hops = none
  resolve_forwarded_for_ip (some value) hops =
      let candidates = valid_candidates value in
      get_elem? candidates (max 0 (length candidates - hops - 1))

  abbrev pub first_given : Option (List ℕ) → Option (List ℕ) → Option (List ℕ)
  first_given (some ip) later = some ip
  first_given none later = later

  -- `resolveTrustedProxyHeaderIp`: whether proxies are trusted, the source is one, and the provider
  -- is Cloudflare; then the headers.
  pub resolve_trusted_proxy_header_ip :
      Bool → Bool → Bool → Option (List ℕ) → Option (List ℕ) → Option (List ℕ) → ℕ → Option (List ℕ)
  resolve_trusted_proxy_header_ip trust_proxy trusted_source cloudflare cf_connecting_ip real_ip
        forwarded_for hops =
      if not trust_proxy
      then none
      else (if not trusted_source
          then none
          else first_given (if cloudflare then normalize_trusted_ip cf_connecting_ip else none) (
              first_given (normalize_trusted_ip real_ip)
                (resolve_forwarded_for_ip forwarded_for hops)))
