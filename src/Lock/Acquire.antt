-- ===== src/Lock/Acquire.antt =====
-- `acquireLock` of packages/cache/src/distributed-lock.ts.
use text.Mathlib.TextPositions.{eq_refl}
use urlfy_cc.Common.{
  ℕ, zero, suc, ◌≡◌, refl, ◌≢◌, Bool, true, false, none, some, String, List, inl, inr, sym, ◌∙◌,
}
use urlfy_cc.Common.Effects.{Outcome, returned, threw, Outcome-cases}
use urlfy_cc.Common.JsMap.{get, get-set}
use urlfy_cc.Lock.{LockRedis, LockState, attempt, acquire_lock, remember}

-- Redis holds the token for the key, and this process remembers it.
pub record IsAcquired (redis : LockRedis) (key token : String) (s : LockState redis) : Type 0 where
  pub in_redis : redis.value key s.world ≡ some token
  pub remembered : get key s.held_lock_tokens ≡ some token

module _ (redis : LockRedis) (key token : String) (ttl delay : ℕ) where
  -- What an answer of `acquireLock` says.
  abbrev pub Answer : Bool → List (String × String) → LockState redis → Type 0
  Answer true held after = IsAcquired redis key token after
  Answer false held after = (after.held_lock_tokens ≡ held) × (redis.value key after.world ≢ none)

  set-Answer :
      (s : LockState redis) (w : redis.Store)
      → redis.set_nx_px key token ttl s.world ≡ (returned true, w)
      → IsAcquired redis key token (remember redis key token (record s { world = w }))
  set-Answer s w e = record {
    in_redis = (redis.set-ok key token ttl s.world w e).1;
    remembered = get-set key key token s.held_lock_tokens ∙ rw (eq_refl key);
  }

  -- The same of what the call came to; an error changes no token.
  abbrev pub Fits : List (String × String) → Outcome redis.Error Bool × LockState redis → Type 0
  Fits held (returned ok, after) = Answer ok held after
  Fits held (threw _, after) = after.held_lock_tokens ≡ held

  busy-Answer :
      (s : LockState redis) (w : redis.Store)
      → redis.set_nx_px key token ttl s.world ≡ (returned false, w)
      → Answer false s.held_lock_tokens (record s { world = w })
  busy-Answer s w e =
      let (taken, same) = redis.set-busy key token ttl s.world w e in
      (refl, λ h. taken (sym same ∙ h))

  attempt-Fits :
      (left : ℕ) (s : LockState redis)
      → Fits s.held_lock_tokens (attempt redis key token ttl delay left s)
  unfolding attempt
  attempt-Fits zero s = elim (Outcome-cases (redis.set_nx_px key token ttl s.world)) [
    | inr (x, w, thrown) ↦ rw (thrown, attempt) refl
    | inl (true, w, taken) ↦ rw (taken, attempt) (set-Answer s w taken)
    | inl (false, w, busy) ↦ rw (busy, attempt) (busy-Answer s w busy)
  ]
  attempt-Fits (suc left) s = elim (Outcome-cases (redis.set_nx_px key token ttl s.world)) [
    | inr (x, w, thrown) ↦ rw (thrown, attempt) refl
    | inl (true, w, taken) ↦ rw (taken, attempt) (set-Answer s w taken)
    | inl (false, w, busy) ↦
        rw (busy, attempt) (attempt-Fits left (record s { world = redis.sleep delay w }))
  ]

  -- `acquireLock` answers yes only when Redis holds its token for the key and this process
  -- remembers it; it answers no only when another value is in Redis, and then, as after an error,
  -- this process remembers what it did before. This holds whatever others do in the sleeps.
  pub acquire_lock-Fits :
      (retries : ℕ) (s : LockState redis)
      → Fits s.held_lock_tokens (acquire_lock redis key token ttl retries delay s)
  unfolding acquire_lock
  acquire_lock-Fits retries s = attempt-Fits retries s
