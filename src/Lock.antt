-- ===== src/Lock.antt =====
-- The distributed lock, packages/cache/src/distributed-lock.ts, over the commands of Redis, which
-- are a parameter.
pub mod Acquire
pub mod Release
pub mod Guarded
mod Tests
use urlfy_cc.Common.{
  ℕ, zero, suc, ◌≡◌, ◌≢◌, Bool, true, false, Option, none, some, String, List, if◌then◌else◌, not,
  ◌==◌, truthy_text, or_else,
}
use text.Mathlib.Text.{◌==◌ as str_eq}
use urlfy_cc.Common.Effects.{
  Outcome, returned, threw, Eff, pure, bind_outcome, finally, ◌>>=◌, ◌>>◌,
}
use urlfy_cc.Common.JsMap.{get, set, delete}

-- The commands on a key that the lock sends, over a store that other clients and time move too
-- (`sleep`). `value` is what a key holds. A command may throw.
pub record LockRedis : Type 1 where
  pub Store : Type 0
  pub Error : Type 0
  pub value : String → Store → Option String
  -- `SET key token PX ttl NX`: whether the answer is OK.
  pub set_nx_px : String → String → ℕ → Eff Store Error Bool
  -- `EVAL` with GET and DEL on one key, which is atomic.
  pub eval_lua :
      ((Store → Option String) → (Store → Store) → Store → ℕ × Store) → String → Eff Store Error ℕ
  pub del : String → Store → Store
  pub exists : String → Eff Store Error ℕ
  pub sleep : ℕ → Store → Store
  pub set-ok :
      (key token : String) (ttl : ℕ) (w w' : Store)
      → set_nx_px key token ttl w ≡ (returned true, w')
      → (value key w ≡ none) × (value key w' ≡ some token)
  pub set-busy :
      (key token : String) (ttl : ℕ) (w w' : Store)
      → set_nx_px key token ttl w ≡ (returned false, w')
      → (value key w ≢ none) × (value key w' ≡ value key w)
  pub eval-runs :
      (f : (Store → Option String) → (Store → Store) → Store → ℕ × Store) (key : String)
      (w w' : Store) (n : ℕ)
      → eval_lua f key w ≡ (returned n, w')
      → f (value key) (del key) w ≡ (n, w')
  pub value-del : (key : String) (w : Store) → value key (del key w) ≡ none

abbrev pub holds : Option String → String → Bool
holds none token = false
holds (some v) token = str_eq v token

module _ (redis : LockRedis) where
  open redis use {Store, Error, value, set_nx_px, eval_lua, exists, sleep}

  -- The module's `heldLockTokens`, and Redis.
  pub record LockState : Type 0 where
    pub held_lock_tokens : List (String × String)
    pub world : Store

  -- A command moves the store only.
  abbrev pub on_store : {A : Type 0} → Eff Store Error A → Eff LockState Error A
  on_store m s = let (r, w) = m s.world in (r, record s { world = w })

  -- `heldLockTokens.set(key, token)`
  abbrev pub remember : String → String → LockState → LockState
  remember key token s = record s { held_lock_tokens = set key token s.held_lock_tokens }

  -- The loop of `acquireLock` with `left` retries to come; a retry is made after a sleep, in which
  -- others move the store.
  unfoldable pub attempt : String → String → ℕ → ℕ → ℕ → Eff LockState Error Bool
  attempt key token ttl delay zero s =
      bind_outcome (on_store (set_nx_px key token ttl) s)
        (λ ok s'. if ok then (returned true, remember key token s') else (returned false, s'))
  attempt key token ttl delay (suc left) s =
      bind_outcome (on_store (set_nx_px key token ttl) s) (λ ok s'.
        let again = attempt key token ttl delay left (record s' { world = sleep delay s'.world }) in
        if ok then (returned true, remember key token s') else again)

  -- `acquireLock`, with the token that it makes.
  pub acquire_lock : String → String → ℕ → ℕ → ℕ → Eff LockState Error Bool
  unfolding attempt
  acquire_lock key token ttl retries delay = attempt key token ttl delay retries

  -- `RELEASE_LOCK_SCRIPT`
  abbrev pub release_lock_script :
      String → (Store → Option String) → (Store → Store) → Store → ℕ × Store
  release_lock_script token get_key del_key w =
      if holds (get_key w) token then (1, del_key w) else (0, w)

  abbrev pub forget : String → LockState → LockState
  forget key s = record s { held_lock_tokens = delete key s.held_lock_tokens }

  -- `releaseLock`
  unfoldable pub release_lock : String → Eff LockState Error (Unit {0})
  release_lock key s =
      let token = get key s.held_lock_tokens in
      if not (truthy_text token)
      then (returned tt, s)
      else bind_outcome (on_store (redis.eval_lua (release_lock_script (or_else token "")) key) s)
          (λ _ s'. (returned tt, forget key s'))

  abbrev pub to_some : {A : Type 0} → Eff LockState Error A → Eff LockState Error (Option A)
  to_some m s = bind_outcome (m s) (λ a s'. (returned (some a), s'))

  -- `withLock`, with the token that it makes.
  unfoldable pub with_lock :
      {A : Type 0} → String → String → ℕ → Eff LockState Error A → Eff LockState Error (Option A)
  unfolding acquire_lock
  with_lock key token ttl fn s = bind_outcome (acquire_lock key token ttl 0 50 s) (λ acquired s'.
      if not acquired then (returned none, s') else finally (to_some fn) (release_lock key) s')

  abbrev pub is_one : Outcome Error ℕ → Bool
  is_one (returned n) = n == 1
  is_one (threw _) = false

  -- `hasLock`: an error is answered "no lock".
  pub has_lock : String → LockState → Bool × LockState
  has_lock key s = let (r, w) = exists key s.world in (is_one r, record s { world = w })

-- `DistributedLock`; its options are filled in by the constructor.
pub record DistributedLock : Type 0 where
  pub key : String
  pub ttl_ms : ℕ
  pub retries : ℕ
  pub retry_delay_ms : ℕ
  pub acquired : Bool

abbrev pub make_lock : String → ℕ → Option ℕ → Option ℕ → DistributedLock
make_lock key ttl retries delay = record {
  key = key;
  ttl_ms = ttl;
  retries = or_else retries 0;
  retry_delay_ms = or_else delay 50;
  acquired = false;
}

module _ (redis : LockRedis) where
  open redis use {Error}

  -- The methods, over the instance and the state of the module.
  abbrev pub LockM : Type 0 → Type 0
  LockM A = Eff (DistributedLock × LockState redis) Error A

  abbrev pub after_acquire :
      DistributedLock
      → Outcome Error Bool × LockState redis
      → Outcome Error Bool × (DistributedLock × LockState redis)
  after_acquire l (returned ok, s) = (returned ok, (record l { acquired = ok }, s))
  after_acquire l (threw e, s) = (threw e, (l, s))

  unfoldable pub acquire : String → LockM Bool
  unfolding acquire_lock
  acquire token (l, s) =
      after_acquire l (acquire_lock redis l.key token l.ttl_ms l.retries l.retry_delay_ms s)

  abbrev pub after_release :
      DistributedLock
      → Outcome Error (Unit {0}) × LockState redis
      → Outcome Error (Unit {0}) × (DistributedLock × LockState redis)
  after_release l (returned _, s) = (returned tt, (record l { acquired = false }, s))
  after_release l (threw e, s) = (threw e, (l, s))

  unfoldable pub release : LockM (Unit {0})
  unfolding release_lock
  release (l, s) =
      if l.acquired then after_release l (release_lock redis l.key s) else (returned tt, (l, s))
