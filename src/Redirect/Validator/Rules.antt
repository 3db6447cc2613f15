-- ===== src/Redirect/Validator/Rules.antt =====
-- Which links packages/redirect-domain/src/validator.ts lets through.
use urlfy_cc.Common.{
  ℕ, ◌≤◌, ◌<◌, ◌≡◌, refl, ◌≢◌, ◌↔◌, ◌⊎◌, inl, inr, Bool, true, false, Option, none, some, String,
  arith, truthy_text, truthy_number, or_else, Option-cases, leb, zero, suc, ◌&&◌,
}
use text.Mathlib.TextEquality.{eq_iff}
use urlfy_cc.Redirect.Link.{CachedLink, RedirectError, password_required}
use urlfy_cc.Redirect.Validator.{is_before, validate_link}

and-false : (b : Bool) → (b && false) ≡ false
and-false true = refl
and-false false = refl

module _ (parse_date : String → Option ℕ) (now : ℕ) where
  not_expired→ :
      (o : Option String) (s : String) (t : ℕ)
      → (truthy_text o && is_before (parse_date (or_else o "")) now) ≡ false
      → o ≡ some s
      → s ≢ ""
      → parse_date s ≡ some t
      → now ≤ t
  not_expired→ o s t h e named p = ground (arith, eq_iff s "")

  →not_expired :
      (o : Option String)
      → ((s : String) (t : ℕ) → o ≡ some s → s ≢ "" → parse_date s ≡ some t → now ≤ t)
      → (truthy_text o && is_before (parse_date (or_else o "")) now) ≡ false
  →not_expired none h = refl
  →not_expired (some s) h = elim (Option-cases (parse_date s)) [
    | inl invalid ↦ rw (invalid) (and-false (truthy_text (some s)))
    | inr (t, date) ↦ ground (arith, h s t refl, eq_iff s "")
  ]

below→ :
    (o : Option ℕ) (n m : ℕ)
    → (truthy_number o && leb (or_else o 0) n) ≡ false
    → o ≡ some m
    → 0 < m
    → n < m
below→ none n m h e p = cc
below→ (some zero) n m h e p = absurd (ground arith)
below→ (some (suc k)) n m h e p = ground arith

→below :
    (o : Option ℕ) (n : ℕ)
    → ((m : ℕ) → o ≡ some m → 0 < m → n < m)
    → (truthy_number o && leb (or_else o 0) n) ≡ false
→below none n h = refl
→below (some zero) n h = refl
→below (some (suc k)) n h = ground (arith, h (suc k) refl)

module _ (parse_date : String → Option ℕ) (now : ℕ) (link : CachedLink) where
  -- A link that may be followed, with no word of its password.
  pub record IsOpen : Type 0 where
    pub active : link.is_active ≡ true
    pub allowed : link.is_banned ≡ false
    pub current :
        (s : String) (t : ℕ) → link.expires_at ≡ some s → s ≢ "" → parse_date s ≡ some t → now ≤ t
    pub below_max : (m : ℕ) → link.max_clicks ≡ some m → 0 < m → link.clicks_count < m

  -- A link passes exactly when it is active, not banned, not past its date (an empty or invalid date
  -- is none), below its limit of clicks (a limit of 0 is none), and it has no password (or an empty
  -- one), or the password was given.
  pub validate_link_iff :
      (bypass : Bool)
      → ((validate_link parse_date now link bypass).valid ≡ true)
        ↔ (IsOpen × ((truthy_text link.password_hash ≡ false) ⊎ (bypass ≡ true)))
  unfolding validate_link
  validate_link_iff bypass = (
    (λ h. (
      record {
        active = ground arith;
        allowed = ground arith;
        current = λ s t. not_expired→ parse_date now link.expires_at s t (ground arith);
        below_max = λ m. below→ link.max_clicks link.clicks_count m (ground arith);
      },
      ground arith,
    )),
    (λ (o, password). ground (
      arith,
      o.active,
      o.allowed,
      →not_expired parse_date now link.expires_at o.current,
      →below link.max_clicks link.clicks_count o.below_max,
    )),
  )

  -- A given password takes away the demand for it and nothing else: any other refusal stays.
  pub bypass_keeps_errors :
      (e : RedirectError)
      → e ≢ password_required
      → ((validate_link parse_date now link true).error ≡ some e)
        ↔ ((validate_link parse_date now link false).error ≡ some e)
  unfolding validate_link
  bypass_keeps_errors e other = ground arith
