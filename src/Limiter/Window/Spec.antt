-- ===== src/Limiter/Window/Spec.antt =====
-- What the sliding window of packages/cache/src/rate-limiter-core.ts promises.
use urlfy_cc.Common.{
  ℕ, suc, ◌+◌, ◌-◌, ◌*◌, ◌≤◌, ◌≡◌, refl, String, List, [], ◌∷◌, ◌++◌, ltb, if◌then◌else◌, length,
  keep, arith, length-keep-le, All,
}
use urlfy_cc.Limiter.Window.{SortedSets, IsNew, sliding_window_lua}

-- The number of times after `s`.
unfoldable pub count_after : ℕ → List ℕ → ℕ
count_after s [] = 0
count_after s (t ∷ ts) = let rest = count_after s ts in if ltb s t then suc rest else rest

-- The number of entries with a score after `s`.
unfoldable pub entries_after : ℕ → List (ℕ × String) → ℕ
entries_after s es = length (keep (λ e. ltb s e.0) es)

pub entries_after-append :
    (s t : ℕ) (m : String) (es : List (ℕ × String))
    → entries_after s (es ++ (t, m) ∷ [])
      ≡ (if ltb s t then suc (entries_after s es) else entries_after s es)
unfolding entries_after
entries_after-append s t m [] = ground arith
entries_after-append s t m ((a, n) ∷ es) = ground (arith, entries_after-append s t m es)

-- What fell out of an earlier window is in no later one.
pub entries_after-keep :
    (s lo : ℕ) (es : List (ℕ × String))
    → lo ≤ s
    → entries_after s (keep (λ e. ltb lo e.0) es) ≡ entries_after s es
unfolding entries_after
entries_after-keep s lo [] h = refl
entries_after-keep s lo ((a, n) ∷ es) h = ground (arith, entries_after-keep s lo es h)

pub entries_after-le : (s : ℕ) (es : List (ℕ × String)) → entries_after s es ≤ length es
unfolding entries_after
entries_after-le s es = length-keep-le (λ e. ltb s e.0) es

module _ (r : SortedSets) (key : String) (points duration : ℕ) where
  open r use {Store, entries}

  -- `checkLimit`'s call of the script at the time `now`, with the member that it makes.
  abbrev pub hit : ℕ → String → Store → (ℕ × ℕ) × Store
  hit now member w = sliding_window_lua r key (now - duration * 1000) now points duration member w

  -- Histories of one key: requests at rising times, each with a new member, and the expiry of the
  -- key, which comes when its time to live has passed since the last request that was let
  -- through. `now` is the time of the last event, `passed` the times that were let through.
  pub data History : ℕ → List ℕ → Store → Type 0 where
    start : {w : Store} (now : ℕ) → entries key w ≡ [] → History now [] w
    let_through :
        {now : ℕ} {passed : List ℕ} {w : Store} (t : ℕ) (member : String) (count : ℕ) (w' : Store)
        → History now passed w
        → now ≤ t
        → IsNew member (keep (λ e. ltb (t - duration * 1000) e.0) (entries key w))
        → hit t member w ≡ ((1, count), w')
        → History t (t ∷ passed) w'
    turned_away :
        {now : ℕ} {passed : List ℕ} {w : Store} (t : ℕ) (member : String) (count : ℕ) (w' : Store)
        → History now passed w
        → now ≤ t
        → hit t member w ≡ ((0, count), w')
        → History t passed w'
    expired :
        {now : ℕ} {passed : List ℕ} {w : Store} (t : ℕ) (w' : Store)
        → History now passed w
        → now ≤ t
        → All (λ p. p + duration * 1000 ≤ t) passed
        → entries key w' ≡ []
        → History t passed w'

  -- The set knows of every request of the last window that was let through.
  pub record Knows (now : ℕ) (passed : List ℕ) (w : Store) : Type 0 where
    pub counted :
        (s : ℕ) → now - duration * 1000 ≤ s → count_after s passed ≡ entries_after s (entries key w)
    pub past : All (λ p. p ≤ now) passed
    pub within : count_after (now - duration * 1000) passed ≤ points
