-- ===== src/Ip/Forwarded.antt =====
-- What a client can do to the address that packages/telemetry/src/ip.ts takes from X-Forwarded-For.
use urlfy_cc.Common.{
  ℕ, ◌+◌, ◌-◌, ◌<◌, ◌≡◌, refl, Bool, some, List, [], ◌∷◌, ◌++◌, ◌==◌, arith, length, keep, map, max,
  length-append, get_elem?-append_right, ap, ◌∙◌, Bool-cases, inl, inr,
}
use urlfy_cc.Ip.{split_on, trim, is_filled, is_valid_ip, valid_candidates, resolve_forwarded_for_ip}

keep-append :
    {A : Type 0} (p : A → Bool) (xs ys : List A) → keep p (xs ++ ys) ≡ keep p xs ++ keep p ys
keep-append p [] ys = refl
keep-append p (x ∷ xs) ys = ground (arith, keep-append p xs ys)

map-append : {A B : Type 0} (f : A → B) (xs ys : List A) → map f (xs ++ ys) ≡ map f xs ++ map f ys
map-append f [] ys = refl
map-append f (x ∷ xs) ys = ap (λ l. f x ∷ l) (map-append f xs ys)

split_on-filled :
    (sep : ℕ) (cs : List ℕ) → (p : List ℕ) × (ps : List (List ℕ)) × (split_on sep cs ≡ p ∷ ps)
unfolding split_on
split_on-filled sep [] = ([], [], refl)
split_on-filled sep (c ∷ cs) =
    let (p, ps, e) = split_on-filled sep cs in
    elim (Bool-cases (c == sep)) [
      | inl cut ↦ ([], split_on sep cs, rw cut refl)
      | inr within ↦ (c ∷ p, ps, rw (within, e) refl)
    ]

split_on-append :
    (sep : ℕ) (cs ds : List ℕ)
    → split_on sep (cs ++ (sep ∷ ds)) ≡ split_on sep cs ++ split_on sep ds
unfolding split_on
split_on-append sep [] ds = ground arith
split_on-append sep (c ∷ cs) ds =
    let (p, ps, e) = split_on-filled sep cs in
    elim (Bool-cases (c == sep)) [
      | inl cut ↦ rw (cut, split_on-append sep cs ds) refl
      | inr within ↦ rw (within, split_on-append sep cs ds, e) refl
    ]

candidates-append :
    (is_ipv6 : List ℕ → Bool) (cs ds : List ℕ)
    → valid_candidates is_ipv6 (cs ++ (b',' ∷ ds))
      ≡ valid_candidates is_ipv6 cs ++ valid_candidates is_ipv6 ds
unfolding valid_candidates
candidates-append is_ipv6 cs ds = rw (split_on-append b',' cs ds) (
    ap (λ l. keep (is_valid_ip is_ipv6) (keep is_filled l))
      (map-append trim (split_on b',' cs) (split_on b',' ds))
    ∙ ap (keep (is_valid_ip is_ipv6))
        (keep-append is_filled (map trim (split_on b',' cs)) (map trim (split_on b',' ds)))
    ∙ keep-append (is_valid_ip is_ipv6) _ _)

-- Whatever a client writes in front, the address comes from what the proxies added, once they added
-- more valid addresses than there are trusted hops.
pub forwarded_for-resists :
    (is_ipv6 : List ℕ → Bool) (written added : List ℕ) (hops : ℕ)
    → hops < length (valid_candidates is_ipv6 added)
    → resolve_forwarded_for_ip is_ipv6 (some (written ++ (b',' ∷ added))) hops
      ≡ resolve_forwarded_for_ip is_ipv6 (some added) hops
unfolding resolve_forwarded_for_ip
forwarded_for-resists is_ipv6 written added hops enough =
    let theirs = valid_candidates is_ipv6 added in
    let own = valid_candidates is_ipv6 written in
    let index : max 0 (length (own ++ theirs) - hops - 1)
        ≡ length own + max 0 (length theirs - hops - 1) =
      omega (arith, length-append own theirs, enough) in
    rw (candidates-append is_ipv6 written added, index)
      (get_elem?-append_right own theirs (max 0 (length theirs - hops - 1)))
