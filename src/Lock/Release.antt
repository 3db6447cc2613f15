-- ===== src/Lock/Release.antt =====
-- `releaseLock` of packages/cache/src/distributed-lock.ts.
use text.Mathlib.TextEquality.{eq_iff}
use text.Mathlib.TextPositions.{eq_refl}
use urlfy_cc.Common.{
  ℕ, ◌≡◌, refl, ◌≢◌, true, false, Option, none, some, String, arith, inl, inr, ap, sym, Bool-cases,
  ◌∙◌, truthy_text,
}
use urlfy_cc.Common.Effects.{Outcome, returned, threw, Outcome-cases}
use urlfy_cc.Common.JsMap.{get, get-delete}
use urlfy_cc.Lock.{LockRedis, LockState, holds, release_lock, release_lock_script}

module _ (redis : LockRedis) (key : String) where
  -- What a release does to Redis: it takes the key away from the remembered token and from no other
  -- value, and it forgets the token; or it throws, and nothing is forgotten.
  abbrev pub Releases :
      String → LockState redis → Outcome redis.Error (Unit {0}) × LockState redis → Type 0
  Releases token before (returned _, after) =
      (get key after.held_lock_tokens ≡ none)
      × (redis.value key before.world ≡ some token → redis.value key after.world ≡ none)
      × (redis.value key before.world ≢ some token → after.world ≡ before.world)
  Releases token before (threw _, after) = after.held_lock_tokens ≡ before.held_lock_tokens

  holds_iff : (v : Option String) (token : String) → holds v token ≡ true → v ≡ some token
  holds_iff none token h = cc
  holds_iff (some v) token h = ap some ((eq_iff v token).0 h)

  holds_self : (v : Option String) (token : String) → v ≡ some token → holds v token ≡ true
  holds_self v token h = rw h (eq_refl token)

  true≢false : true ≢ false
  true≢false e = cc

  script-Releases :
      (token : String) (w w' : redis.Store) (n : ℕ)
      → release_lock_script redis token (redis.value key) (redis.del key) w ≡ (n, w')
      → (redis.value key w ≡ some token → redis.value key w' ≡ none)
        × (redis.value key w ≢ some token → w' ≡ w)
  script-Releases token w w' n e = elim (Bool-cases (holds (redis.value key w) token)) [
    | inl same ↦
        let gone : redis.del key w ≡ w' = ground arith in
        (
          λ _. rw (← gone) (redis.value-del key w),
          λ other. absurd (other (holds_iff (redis.value key w) token same)),
        )
    | inr other ↦
        let kept : w ≡ w' = ground arith in
        (
          λ h. absurd (true≢false (sym (holds_self (redis.value key w) token h) ∙ other)),
          λ _. sym kept,
        )
  ]

  -- `releaseLock`, while this process remembers a token (a text that is not empty) for the key, sends
  -- the key's deletion only against that token: a key with another value, and a free one, stay as
  -- they are, even if this process once held the lock.
  pub release_lock-Releases :
      (token : String) (s : LockState redis)
      → get key s.held_lock_tokens ≡ some token
      → token ≢ ""
      → Releases token s (release_lock redis key s)
  unfolding release_lock
  release_lock-Releases token s known named =
      let given : truthy_text (some token) ≡ true = ground (arith, eq_iff token "") in
      let script = release_lock_script redis token in
      let freed =
        λ (w : redis.Store) (n : ℕ) (ran : redis.eval_lua script key s.world ≡ (returned n, w)).
          script-Releases token s.world w n (redis.eval-runs script key s.world w n ran) in
      elim (Outcome-cases (redis.eval_lua script key s.world)) [
        | inr (x, w, thrown) ↦ rw (known, release_lock, given, thrown) refl
        | inl (n, w, ran) ↦
            rw (known, release_lock, given, ran)
              (
                get-delete key key s.held_lock_tokens ∙ rw (eq_refl key),
                (freed w n ran).0,
                (freed w n ran).1,
              )
      ]

  -- Without a remembered token a release does nothing.
  pub release_lock_unheld :
      (s : LockState redis)
      → get key s.held_lock_tokens ≡ none
      → release_lock redis key s ≡ (returned tt, s)
  unfolding release_lock
  release_lock_unheld s h = rw (h, release_lock)
