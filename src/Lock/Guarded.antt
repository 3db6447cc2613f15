-- ===== src/Lock/Guarded.antt =====
-- `withLock` and the class `DistributedLock` of packages/cache/src/distributed-lock.ts.
use urlfy_cc.Common.{
  ℕ, ◌≡◌, refl, ◌≢◌, Bool, true, false, Option, none, some, String, List, arith, ap, sym, ◌∙◌,
  subst,
}
use urlfy_cc.Common.Effects.{Outcome, returned, threw, Eff, keep_outcome}
use urlfy_cc.Common.JsMap.{get}
use urlfy_cc.Lock.{
  LockRedis, LockState, DistributedLock, acquire_lock, release_lock, with_lock, to_some, acquire,
  release, after_acquire, after_release,
}
use urlfy_cc.Lock.Acquire.{IsAcquired, Fits, acquire_lock-Fits}
use urlfy_cc.Lock.Release.{Releases, release_lock-Releases}

-- The key is free, and this process remembers no token for it.
abbrev pub IsFreed : (redis : LockRedis) → String → LockState redis → Type 0
IsFreed redis key s = (redis.value key s.world ≡ none) × (get key s.held_lock_tokens ≡ none)

-- The answer of `withLock` for an outcome of the function under the lock.
abbrev pub answer_of : {E A : Type 0} → Outcome E A → Outcome E (Option A)
answer_of (returned a) = returned (some a)
answer_of (threw e) = threw e

module _ (redis : LockRedis) (key token : String) (named : token ≢ "") where
  Releases-IsFreed :
      (s : LockState redis) (out : Outcome redis.Error (Unit {0}) × LockState redis)
      → IsAcquired redis key token s
      → Releases redis key token s out
      → out.0 ≡ returned tt
      → IsFreed redis key out.1
  Releases-IsFreed s (returned _, after) held (forgotten, gone, _) ok =
      (gone held.in_redis, forgotten)
  Releases-IsFreed s (threw _, after) held h ok = cc

  release_lock-IsFreed :
      (s : LockState redis)
      → IsAcquired redis key token s
      → (release_lock redis key s).0 ≡ returned tt
      → IsFreed redis key (release_lock redis key s).1
  release_lock-IsFreed s held =
      Releases-IsFreed s (release_lock redis key s) held
        (release_lock-Releases redis key token s held.remembered named)

  finally-release :
      {A : Type 0} (s2 : LockState redis) (out : Outcome redis.Error A)
      → (release_lock redis key s2).0 ≡ returned tt
      → (keep_outcome (answer_of out) (release_lock redis key s2))
        ≡ (answer_of out, (release_lock redis key s2).1)
  finally-release s2 out ok = ground arith

  to_some-answer_of :
      {A : Type 0} (fn : Eff (LockState redis) redis.Error A) (s1 s2 : LockState redis)
      (out : Outcome redis.Error A)
      → fn s1 ≡ (out, s2)
      → to_some redis fn s1 ≡ (answer_of out, s2)
  to_some-answer_of fn s1 s2 (returned a) e = rw e
  to_some-answer_of fn s1 s2 (threw x) e = rw e

  -- Once the lock is acquired, `withLock` runs the function, and whether it returns or throws, the
  -- lock is released after it: the answer is the function's, the key is free and the token
  -- forgotten. The function is to leave the lock held, and the release not to throw.
  pub with_lock_frees :
      {A : Type 0} (ttl : ℕ) (fn : Eff (LockState redis) redis.Error A) (s s1 s2 : LockState redis)
      (out : Outcome redis.Error A)
      → acquire_lock redis key token ttl 0 50 s ≡ (returned true, s1)
      → fn s1 ≡ (out, s2)
      → IsAcquired redis key token s2
      → (release_lock redis key s2).0 ≡ returned tt
      → (with_lock redis key token ttl fn s ≡ (answer_of out, (release_lock redis key s2).1))
        × IsFreed redis key (release_lock redis key s2).1
  unfolding with_lock
  with_lock_frees ttl fn s s1 s2 out acquired ran held ok = (
    rw (acquired, with_lock) (rw (to_some-answer_of fn s1 s2 out ran) (finally-release s2 out ok)),
    release_lock-IsFreed s2 held ok,
  )

  -- If the lock is not acquired, the function is not run.
  pub with_lock_skips :
      {A : Type 0} (ttl : ℕ) (fn : Eff (LockState redis) redis.Error A) (s s1 : LockState redis)
      → acquire_lock redis key token ttl 0 50 s ≡ (returned false, s1)
      → with_lock redis key token ttl fn s ≡ (returned none, s1)
  unfolding with_lock
  with_lock_skips ttl fn s s1 refused = rw (refused, with_lock)

  after_acquire-IsAcquired :
      (b b' : DistributedLock) (k : String) (ttl delay : ℕ) (held : List (String × String))
      (out : Outcome redis.Error Bool × LockState redis) (s' : LockState redis)
      → after_acquire redis b out ≡ (returned true, (b', s'))
      → Fits redis k token ttl delay held out
      → IsAcquired redis k token s'
  after_acquire-IsAcquired b b' k ttl delay held (returned true, x) s' e fits =
      let same : x ≡ s' = ground arith in subst (IsAcquired redis k token) same fits
  after_acquire-IsAcquired b b' k ttl delay held (returned false, x) s' e fits = cc
  after_acquire-IsAcquired b b' k ttl delay held (threw _, x) s' e fits = cc

  acquire-IsAcquired :
      (b b' : DistributedLock) (s s' : LockState redis)
      → b.key ≡ key
      → acquire redis token (b, s) ≡ (returned true, (b', s'))
      → IsAcquired redis key token s'
  unfolding acquire
  acquire-IsAcquired b b' s s' same e =
      subst (λ k. IsAcquired redis k token s') same
        (after_acquire-IsAcquired b b' b.key b.ttl_ms b.retry_delay_ms s.held_lock_tokens
          (acquire_lock redis b.key token b.ttl_ms b.retries b.retry_delay_ms s) s' e
          (acquire_lock-Fits redis b.key token b.ttl_ms b.retry_delay_ms b.retries s))

  after_release_lem :
      (a a' : DistributedLock) (out : Outcome redis.Error (Unit {0}) × LockState redis)
      (s' : LockState redis)
      → after_release redis a out ≡ (returned tt, (a', s'))
      → (out.0 ≡ returned tt) × (out.1 ≡ s')
  after_release_lem a a' (returned _, x) s' e = (refl, ground arith)
  after_release_lem a a' (threw _, x) s' e = cc

  -- An instance whose lock ran out frees the lock of another: if an instance `a` of this process
  -- believes to hold the key, and another instance `b` of this process has acquired it since, then a
  -- release by `a` that returns takes the key away from `b`.
  pub stale_release_frees :
      (a a' b b' : DistributedLock) (s s' s'' : LockState redis)
      → a.key ≡ key
      → b.key ≡ key
      → a.acquired ≡ true
      → acquire redis token (b, s) ≡ (returned true, (b', s'))
      → release redis (a, s') ≡ (returned tt, (a', s''))
      → (redis.value key s'.world ≡ some token) × (redis.value key s''.world ≡ none)
  unfolding release
  stale_release_frees a a' b b' s s' s'' same_a same_b believes got freed =
      let held = acquire-IsAcquired b b' s s' same_b got in
      let (ok, after) =
        after_release_lem (record a { acquired = true }) a' (release_lock redis a.key s') s''
          (rw (believes, release) at freed) in
      let freed_key =
        release_lock-IsFreed s' held
          (subst (λ k. (release_lock redis k s').0 ≡ returned tt) same_a ok) in
      (
        held.in_redis,
        subst (λ x. redis.value key x.world ≡ none)
            (ap (λ k. (release_lock redis k s').1) (sym same_a) ∙ after) freed_key.0,
      )
