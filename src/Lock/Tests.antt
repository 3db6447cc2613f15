-- ===== src/Lock/Tests.antt =====
-- Runs and instances for packages/cache/src/distributed-lock.ts.
use text.Mathlib.Text.{◌==◌ as str_eq}
use text.Mathlib.TextPositions.{eq_refl}
use urlfy_cc.Common.{
  ℕ, ◌≡◌, refl, ◌≢◌, Bool, true, false, Option, none, some, String, [], ◌∷◌, if◌then◌else◌, arith,
}
use urlfy_cc.Common.Effects.{returned, Eff, pure}
use urlfy_cc.Common.JsMap.{get, set, delete}
use urlfy_cc.Lock.{
  LockRedis, LockState, DistributedLock, make_lock, acquire_lock, release_lock, acquire, release,
}
use urlfy_cc.Lock.Acquire.{IsAcquired}
use urlfy_cc.Lock.Release.{Releases, release_lock-Releases}
use urlfy_cc.Lock.Guarded.{stale_release_frees}

-- A Redis of one client that does not fail: every key has a value or none.
abbrev Values : Type 0
Values = String → Option String

abbrev put : String → Option String → Values → Values
put key v w = λ j. if str_eq j key then v else w j

abbrev set_if_free : Option String → String → String → Eff Values ℕ Bool
set_if_free none key token w = (returned true, put key (some token) w)
set_if_free (some v) key token w = (returned false, w)

abbrev run_script :
    ((Values → Option String) → (Values → Values) → Values → ℕ × Values) → String → Eff Values ℕ ℕ
run_script f key w = let (n, w') = f (λ x. x key) (put key none) w in (returned n, w')

set-ok_values :
    (v : Option String) (key token : String) (w w' : Values)
    → w key ≡ v
    → set_if_free v key token w ≡ (returned true, w')
    → (w key ≡ none) × (w' key ≡ some token)
set-ok_values none key token w w' h e =
    let same : put key (some token) w ≡ w' = ground arith in (h, rw (← same) (rw (eq_refl key)))
set-ok_values (some v) key token w w' h e = cc

set-busy_values :
    (v : Option String) (key token : String) (w w' : Values)
    → w key ≡ v
    → set_if_free v key token w ≡ (returned false, w')
    → (w key ≢ none) × (w' key ≡ w key)
set-busy_values none key token w w' h e = cc
set-busy_values (some v) key token w w' h e =
    let same : w ≡ w' = ground arith in (rw h (λ x. cc), rw same)

value-put : (key : String) (w : Values) → put key none w key ≡ none
value-put key w = rw (eq_refl key)

eval-runs_values :
    (f : (Values → Option String) → (Values → Values) → Values → ℕ × Values) (key : String)
    (w w' : Values) (n : ℕ)
    → run_script f key w ≡ (returned n, w')
    → f (λ x. x key) (put key none) w ≡ (n, w')
eval-runs_values f key w w' n e = ground arith

abbrev values : LockRedis
values = record {
  Store = Values;
  Error = ℕ;
  value = λ key w. w key;
  set_nx_px = λ key token ttl w. set_if_free (w key) key token w;
  eval_lua = run_script;
  del = λ key. put key none;
  exists = λ key. pure 0;
  sleep = λ delay w. w;
  set-ok = λ key token ttl w w'. set-ok_values (w key) key token w w' refl;
  set-busy = λ key token ttl w w'. set-busy_values (w key) key token w w' refl;
  eval-runs = eval-runs_values;
  value-del = value-put;
}

abbrev free : LockState values
free = record { held_lock_tokens = []; world = λ key. none }

abbrev seven : Eff (LockState values) ℕ ℕ
seven = pure 7

abbrev held : LockState values
held = record {
  held_lock_tokens = ("lock:a", "t1") ∷ [];
  world = put "lock:a" (some "t1") (λ key. none);
}

release_lock-Releases_example :
    Releases values "lock:a" "t1" held (release_lock values "lock:a" held)
release_lock-Releases_example =
    release_lock-Releases values "lock:a" "t1" held (unfold get in refl) (λ e. cc)

acquired_free : acquire_lock values "lock:a" "t1" 5000 0 50 free ≡ (returned true, held)
unfolding acquire_lock set
acquired_free = refl

held-IsAcquired : IsAcquired values "lock:a" "t1" held
held-IsAcquired = record { in_redis = refl; remembered = unfold get in refl }

refused_held : acquire_lock values "lock:a" "t2" 5000 0 50 held ≡ (returned false, held)
unfolding acquire_lock
refused_held = refl

-- The lock of `first` has run out: Redis has no key, and its token is still remembered.
abbrev run_out : LockState values
run_out = record { held_lock_tokens = ("lock:a", "t1") ∷ []; world = λ key. none }

abbrev first : DistributedLock
first = record (make_lock "lock:a" 5000 none none) { acquired = true }

abbrev second : DistributedLock
second = make_lock "lock:a" 5000 none none

abbrev second_holds : LockState values
second_holds = record {
  held_lock_tokens = ("lock:a", "t2") ∷ [];
  world = put "lock:a" (some "t2") (λ key. none);
}

abbrev robbed : LockState values
robbed = record { held_lock_tokens = []; world = put "lock:a" none second_holds.world }

stale_release_frees_example :
    (second_holds.world "lock:a" ≡ some "t2") × (robbed.world "lock:a" ≡ none)
stale_release_frees_example =
    stale_release_frees values "lock:a" "t2" (λ e. cc) first (record first { acquired = false })
      second (record second { acquired = true }) run_out second_holds robbed refl refl refl
      (unfold acquire set in refl) (unfold release get delete in refl)
