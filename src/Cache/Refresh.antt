-- ===== src/Cache/Refresh.antt =====
-- `shouldTriggerEarlyRefresh` of packages/redirect-domain/src/cache-service.ts.
use urlfy_cc.Common.{
  ℕ, zero, suc, ◌+◌, ◌-◌, ◌*◌, ◌<◌, ◌≡◌, refl, ◌↔◌, Bool, true, false, Option, none, some, ◌&&◌,
  ltb, if◌then◌else◌, arith,
}

-- What is left of a time to live of so many seconds, in milliseconds.
abbrev pub remaining_ms : ℕ → ℕ → ℕ → ℕ
remaining_ms cached_at original_ttl now = original_ttl * 1000 + cached_at - now

-- `roll` is the tenth in which the random number lies.
unfoldable pub should_trigger_early_refresh : Option ℕ → ℕ → ℕ → ℕ → Bool
should_trigger_early_refresh none original_ttl now roll = false
should_trigger_early_refresh (some zero) original_ttl now roll = false
should_trigger_early_refresh (some (suc at)) original_ttl now roll =
    ltb (remaining_ms (suc at) original_ttl now * 10) (original_ttl * 1000) && ltb roll 1

-- The time of caching that the remaining time to live tells, `parseCachedLink`.
abbrev pub cached_since : ℕ → ℕ → ℕ → ℕ
cached_since original_ttl ttl now =
    let remaining = if ltb 0 ttl then ttl else original_ttl in
    now + remaining * 1000 - original_ttl * 1000

-- A cached link is refreshed early exactly when the time of its caching is known, nine tenths of its
-- time to live have passed since, and the roll is the first of ten, for a time to live above 0.
pub early_refresh_iff :
    (cached_at : Option ℕ) (original_ttl now roll : ℕ)
    → 0 < original_ttl
    → (should_trigger_early_refresh cached_at original_ttl now roll ≡ true)
      ↔ ((at : ℕ) × (cached_at ≡ some at) × (0 < at) × (at + original_ttl * 900 < now) × (roll ≡ 0))
unfolding should_trigger_early_refresh
early_refresh_iff none original_ttl now roll h = (λ e. cc, λ e. cc)
early_refresh_iff (some zero) original_ttl now roll h =
    (λ e. cc, λ e. absurd (ground (arith, e.1, e.2)))
early_refresh_iff (some (suc at)) original_ttl now roll h = (
  λ e. (suc at, refl, omega arith, ground arith, ground arith),
  λ (a, same, pos, late, first). ground arith,
)
