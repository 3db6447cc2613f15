-- ===== src/Limiter/Window.antt =====
-- The sliding window of packages/cache/src/rate-limiter-core.ts: the Lua script, over the commands
-- of Redis, which are a parameter.
pub mod Spec
pub mod Quota
use urlfy_cc.Common.{
  ℕ, ◌+◌, ◌-◌, ◌*◌, ◌≡◌, ◌≢◌, Bool, String, List, [], ◌∷◌, ◌++◌, ltb, if◌then◌else◌, length, keep,
  any,
}

-- The member is none of those of the set.
abbrev pub IsNew : String → List (ℕ × String) → Type 0
IsNew member [] = Unit
IsNew member ((s, m) ∷ es) = (m ≢ member) × IsNew member es

-- The commands that the script calls, and what it relies on: the entries of a sorted set are its
-- members with their scores, in the order in which they came.
pub record SortedSets : Type 1 where
  pub Store : Type 0
  pub entries : String → Store → List (ℕ × String)
  pub zremrangebyscore : String → ℕ → Store → Store
  pub zcard : String → Store → ℕ
  pub zadd : String → ℕ → String → Store → Store
  pub expire : String → ℕ → Store → Store
  -- `ZREMRANGEBYSCORE key -inf s` removes the scores up to `s`.
  pub entries-zremrangebyscore :
      (key : String) (s : ℕ) (w : Store)
      → entries key (zremrangebyscore key s w) ≡ keep (λ e. ltb s e.0) (entries key w)
  pub zcard_lem : (key : String) (w : Store) → zcard key w ≡ length (entries key w)
  -- A member that is not in the set comes into it.
  pub entries-zadd :
      (key : String) (s : ℕ) (member : String) (w : Store)
      → IsNew member (entries key w)
      → entries key (zadd key s member w) ≡ entries key w ++ (s, member) ∷ []
  pub entries-expire :
      (key : String) (ttl : ℕ) (w : Store) → entries key (expire key ttl w) ≡ entries key w

-- `SLIDING_WINDOW_LUA`: whether the request is let through, and the count.
module _ (r : SortedSets) where
  open r use {Store, zremrangebyscore, zcard, zadd, expire}

  unfoldable pub sliding_window_lua : String → ℕ → ℕ → ℕ → ℕ → String → Store → (ℕ × ℕ) × Store
  sliding_window_lua key window_start now max_points ttl member w =
      let w1 = zremrangebyscore key window_start w in
      let count = zcard key w1 in
      if ltb count max_points
      then ((1, count + 1), expire key ttl (zadd key now member w1))
      else ((0, count), w1)
