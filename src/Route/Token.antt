-- ===== src/Route/Token.antt =====
-- `verifyUnlockToken` of apps/web/src/app/r/[code]/route.ts. The hash and the decoders are parameters.
pub mod Signed
use text.Mathlib.Text.{◌==◌ as str_eq}
use urlfy_cc.Common.{
  ℕ, ◌*◌, ◌/◌, ◌≤◌, ◌≡◌, refl, ◌≢◌, ◌↔◌, Bool, true, false, ◌&&◌, not, Option, none, some, String,
  List, [], ◌∷◌, ◌++◌, ◌==◌, ltb, if◌then◌else◌, truthy_text, truthy_number, or_else, arith,
  Option-cases, Bool-cases, inl, inr, ◌∙◌,
}
use urlfy_cc.Alias.{codes}
use urlfy_cc.Redirect.Service.{same_codes}

pub record Payload : Type 0 where
  pub code : Option String
  pub type : Option String
  pub exp : Option ℕ

-- HMAC-SHA256 under a secret as base64url text, the base64url decoder, and the parser of the
-- payload, `none` where it throws.
pub record TokenApi : Type 0 where
  pub hmac_digest : String → List ℕ → List ℕ
  pub from_base64url : List ℕ → List ℕ
  pub parse_payload : List ℕ → Option Payload

-- `split('.')`, the parts of a text between its dots.
abbrev pub cons_to_first : ℕ → List (List ℕ) → List (List ℕ)
cons_to_first c [] = (c ∷ []) ∷ []
cons_to_first c (part ∷ parts) = (c ∷ part) ∷ parts

unfoldable pub split_dots : List ℕ → List (List ℕ)
split_dots [] = [] ∷ []
split_dots (c ∷ cs) =
    let rest = split_dots cs in if c == b'.' then [] ∷ rest else cons_to_first c rest

abbrev pub option_eq : Option String → String → Bool
option_eq none s = false
option_eq (some t) s = str_eq t s

module _ (api : TokenApi) (jwt_secret : Option String) (now : ℕ) where
  open api use {hmac_digest, from_base64url, parse_payload}

  -- `payload.exp < Math.floor(Date.now() / 1000)`, and no expiry at all, are refused.
  abbrev pub accepts_payload : String → Option Payload → Bool
  accepts_payload code none = false
  accepts_payload code (some payload) =
      if not (truthy_number payload.exp)
      then false
      else (if ltb (or_else payload.exp 0) (now / 1000)
          then false
          else option_eq payload.code code && option_eq payload.type "unlock")

  abbrev pub accepts_signed : String → String → List ℕ → List ℕ → List ℕ → Bool
  accepts_signed secret code header payload signature =
      if not (
        same_codes (from_base64url signature)
          (from_base64url (hmac_digest secret (header ++ (b'.' ∷ payload)))))
      then false
      else accepts_payload code (parse_payload (from_base64url payload))

  -- The three parts have to be there and not empty; further parts are ignored.
  abbrev pub accepts_parts : String → String → List (List ℕ) → Bool
  accepts_parts secret code ((h ∷ header) ∷ ((p ∷ payload) ∷ ((s ∷ signature) ∷ more))) =
      accepts_signed secret code (h ∷ header) (p ∷ payload) (s ∷ signature)
  accepts_parts secret code parts = false

  unfoldable pub verify_unlock_token : String → String → Bool
  verify_unlock_token token code =
      if truthy_text jwt_secret && truthy_text (some token)
      then accepts_parts (or_else jwt_secret "") code (split_dots (codes token))
      else false
