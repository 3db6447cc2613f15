-- ===== src/Route/Token/Signed.antt =====
-- Which tokens `verifyUnlockToken` of apps/web/src/app/r/[code]/route.ts accepts.
use text.Mathlib.TextEquality.{eq_iff}
use urlfy_cc.Common.{
  ℕ, ◌/◌, ◌≤◌, ◌≡◌, refl, ◌≢◌, ◌↔◌, Bool, true, false, not, Option, none, some, String, List, [],
  ◌∷◌, ◌++◌, if◌then◌else◌, truthy_text, arith, Option-cases, Bool-cases, inl, inr, ◌∙◌,
}
use urlfy_cc.Alias.{codes}
use urlfy_cc.Redirect.Service.{same_codes}
use urlfy_cc.Route.Token.{
  Payload, TokenApi, split_dots, option_eq, accepts_payload, accepts_signed, accepts_parts,
  verify_unlock_token,
}

pub same_codes_iff : (cs ds : List ℕ) → (same_codes cs ds ≡ true) ↔ (cs ≡ ds)
same_codes_iff [] [] = ground arith
same_codes_iff [] (d ∷ ds) = ground arith
same_codes_iff (c ∷ cs) [] = ground arith
same_codes_iff (c ∷ cs) (d ∷ ds) = ground (arith, same_codes_iff cs ds)

guarded : (b c : Bool) → (if not b then false else c) ≡ true → (b ≡ true) × (c ≡ true)
guarded true c h = (refl, h)
guarded false c h = cc

module _ (api : TokenApi) (now : ℕ) where
  open api use {hmac_digest, from_base64url, parse_payload}

  -- Claims that unlock the code: for it, of the right kind, and not expired.
  pub record Unlocks (code : String) (claims : Payload) : Type 0 where
    pub expiry : ℕ
    pub expires : claims.exp ≡ some expiry
    pub lasts : (expiry ≢ 0) × (now / 1000 ≤ expiry)
    pub same_code : claims.code ≡ some code
    pub kind : claims.type ≡ some "unlock"

  -- A token that was signed with the secret and whose claims unlock the code.
  pub record IsUnlockToken (secret code : String) (parts : List (List ℕ)) : Type 0 where
    pub header : List ℕ
    pub payload : List ℕ
    pub signature : List ℕ
    pub more : List (List ℕ)
    pub split : parts ≡ header ∷ (payload ∷ (signature ∷ more))
    pub not_empty : (header ≢ []) × (payload ≢ []) × (signature ≢ [])
    pub signed :
        from_base64url signature ≡ from_base64url (hmac_digest secret (header ++ (b'.' ∷ payload)))
    pub claims : Payload
    pub parsed : parse_payload (from_base64url payload) ≡ some claims
    pub unlocks : Unlocks code claims

  option_eq_iff : (o : Option String) (s : String) → (option_eq o s ≡ true) ↔ (o ≡ some s)
  option_eq_iff none s = ground arith
  option_eq_iff (some t) s = ground (arith, eq_iff t s)

  module _ (secret : Option String) where
    claims→ :
        (claims : Payload) (code : String)
        → accepts_payload api secret now code (some claims) ≡ true
        → Unlocks code claims
    claims→ claims code h = elim (Option-cases claims.exp) [
      | inl missing ↦ absurd (ground (arith, missing))
      | inr (e, given) ↦ record {
        expiry = e;
        expires = given;
        lasts = ground (arith, given);
        same_code = (option_eq_iff claims.code code).0 (ground (arith, given));
        kind = (option_eq_iff claims.type "unlock").0 (ground (arith, given));
      }
    ]

    →claims :
        (claims : Payload) (code : String)
        → Unlocks code claims
        → accepts_payload api secret now code (some claims) ≡ true
    →claims claims code u = ground (
      arith,
      u.expires,
      u.lasts,
      (option_eq_iff claims.code code).1 u.same_code,
      (option_eq_iff claims.type "unlock").1 u.kind,
    )

    parsed→ :
        (parsed : Option Payload) (code : String)
        → accepts_payload api secret now code parsed ≡ true
        → (claims : Payload) × (parsed ≡ some claims) × Unlocks code claims
    parsed→ none code h = cc
    parsed→ (some claims) code h = (claims, refl, claims→ claims code h)

    parts→ :
        (key code : String) (parts : List (List ℕ))
        → accepts_parts api secret now key code parts ≡ true
        → IsUnlockToken key code parts
    parts→ key code ((h ∷ header) ∷ ((p ∷ payload) ∷ ((s ∷ signature) ∷ more))) ok =
        let (same, accepted) = guarded _ _ ok in
        let (read, parses, u) =
          parsed→ (parse_payload (from_base64url (p ∷ payload))) code accepted in
        record {
          header = h ∷ header;
          payload = p ∷ payload;
          signature = s ∷ signature;
          more = more;
          split = refl;
          not_empty = (λ e. cc, λ e. cc, λ e. cc);
          signed = (same_codes_iff _ _).0 same;
          claims = read;
          parsed = parses;
          unlocks = u;
        }
    parts→ key code [] ok = cc
    parts→ key code ([] ∷ parts) ok = cc
    parts→ key code ((h ∷ header) ∷ []) ok = cc
    parts→ key code ((h ∷ header) ∷ ([] ∷ parts)) ok = cc
    parts→ key code ((h ∷ header) ∷ ((p ∷ payload) ∷ [])) ok = cc
    parts→ key code ((h ∷ header) ∷ ((p ∷ payload) ∷ ([] ∷ parts))) ok = cc

    filled_parts :
        (key code : String) (header payload signature : List ℕ) (more : List (List ℕ))
        → header ≢ []
        → payload ≢ []
        → signature ≢ []
        → accepts_parts api secret now key code (header ∷ (payload ∷ (signature ∷ more)))
          ≡ accepts_signed api secret now key code header payload signature
    filled_parts key code (h ∷ header) (p ∷ payload) (s ∷ signature) more a b c = refl
    filled_parts key code [] payload signature more a b c = absurd (a refl)
    filled_parts key code (h ∷ header) [] signature more a b c = absurd (b refl)
    filled_parts key code (h ∷ header) (p ∷ payload) [] more a b c = absurd (c refl)

    →parts :
        (key code : String) (parts : List (List ℕ))
        → IsUnlockToken key code parts
        → accepts_parts api secret now key code parts ≡ true
    →parts key code parts t = rw (t.split) (
        filled_parts key code t.header t.payload t.signature t.more t.not_empty.0 t.not_empty.1
          t.not_empty.2
        ∙ rw (t.parsed, (same_codes_iff _ _).1 t.signed) (→claims t.claims code t.unlocks))

    no_token :
        (key token code : String)
        → truthy_text (some token) ≡ false
        → accepts_parts api secret now key code (split_dots (codes token)) ≡ false
    unfolding split_dots
    no_token key token code h = rw ((eq_iff token "").0 (ground arith)) refl

  -- With a secret configured, a token unlocks a code exactly when it has its parts, was signed with the
  -- secret, and has claims for that code, of the kind `unlock`, with an expiry that is not past.
  pub verify_unlock_token_iff :
      (secret token code : String)
      → secret ≢ ""
      → (verify_unlock_token api (some secret) now token code ≡ true)
        ↔ IsUnlockToken secret code (split_dots (codes token))
  unfolding verify_unlock_token
  verify_unlock_token_iff secret token code given = elim (Bool-cases (truthy_text (some token))) [
    | inl there ↦ (
      (λ h. parts→ (some secret) secret code _ (ground (arith, there))),
      (λ t. ground (arith, there, →parts (some secret) secret code _ t, eq_iff secret "")),
    )
    | inr empty ↦ (
      (λ h. absurd (ground (arith, empty))),
      (λ t. absurd (
          cc (
            →parts (some secret) secret code _ t,
            no_token (some secret) secret token code empty,
          ))),
    )
  ]
