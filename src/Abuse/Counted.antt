-- ===== src/Abuse/Counted.antt =====
-- What packages/cache/src/anti-abuse-service.ts counts: events that follow one another closely.
use urlfy_cc.Common.{
  ℕ, suc, ◌+◌, ◌*◌, ◌≤◌, ◌<◌, ◌≡◌, refl, ap, ◌∙◌, subst, Bool, true, false, not, Option, some,
  String, leb, truthy_text, or_else, arith, if◌then◌else◌,
}
use urlfy_cc.Common.Effects.{returned, ◌>>◌, bind_outcome-returned}
use urlfy_cc.Health.{RedisHealth, can_attempt_redis_command}
use urlfy_cc.Abuse.{
  EventType, login_failures, signup_attempts, link_creation, api_errors, password_reset, thresholds,
  abuse_key, AbuseRedis, AbuseState, count_of, judge_count, reaches, record_event, is_anomalous,
}

-- What Redis documents of the commands that answer: `count` is the number that a key holds, 0 if it
-- holds none, and `deadline` the time at which it expires. `Passes key w w'` says that from `w` to
-- `w'` time passes and no command for the key runs.
pub record CountLaws {W : Type 0} (redis : AbuseRedis W) (count deadline : String → W → ℕ)
    (Passes : String → W → W → Type 0) : Type 0 where
  pub incr-adds :
      (key : String) (w w' : W) (n : ℕ)
      → redis.incr key w ≡ (returned n, w')
      → (count key w' ≡ suc (count key w)) × (redis.now w ≤ redis.now w')
  pub expire-prolongs :
      (key : String) (ttl : ℕ) (w w' : W)
      → redis.expire key ttl w ≡ (returned tt, w')
      → (count key w' ≡ count key w) × (redis.now w + 1000 * ttl ≤ deadline key w')
  pub wait-keeps :
      (key : String) (w w' : W)
      → Passes key w w'
      → redis.now w' < deadline key w
      → count key w' ≡ count key w
  pub get-reads :
      (key : String) (w w' : W) (v : Option String)
      → redis.get key w ≡ (returned v, w')
      → count_of redis v ≡ some (count key w)

none_reaches : (type : EventType) → false ≡ leb (thresholds type).count 0
none_reaches login_failures = refl
none_reaches signup_attempts = refl
none_reaches link_creation = refl
none_reaches api_errors = refl
none_reaches password_reset = refl

some_injective : {a b : ℕ} → some a ≡ some b → a ≡ b
some_injective e = cc

-- A count that is read, or 0 where none is, against the number of a type.
judged_by :
    (type : EventType) (given : Bool) (read : Option ℕ) (m : ℕ)
    → (if given then read else some 0) ≡ some m
    → (if not given then false else reaches (thresholds type).count read)
      ≡ leb (thresholds type).count m
judged_by type true read m e = ap (reaches (thresholds type).count) e
judged_by type false read m e =
    none_reaches type ∙ ap (leb (thresholds type).count) (some_injective e)

module _ {W : Type 0} (redis : AbuseRedis W) (count deadline : String → W → ℕ)
    (Passes : String → W → W → Type 0) (laws : CountLaws redis count deadline Passes)
    (type : EventType) (subject : String) where
  abbrev pub key : String
  key = abuse_key type subject

  abbrev pub IsAttempted : AbuseState W → RedisHealth → Type 0
  IsAttempted s h = can_attempt_redis_command (redis.now s.world) s.health ≡ (true, h)

  -- So many events were recorded, each answered, and the time from each to the next state is shorter
  -- than the window of the type.
  pub data Spaced : ℕ → AbuseState W → AbuseState W → Type 0 where
    start : (s : AbuseState W) → Spaced 0 s s
    event :
        (n : ℕ) (s0 s s1 : AbuseState W) (h : RedisHealth) (w1 : W)
        → Spaced n s0 s
        → IsAttempted s h
        → (redis.incr key >> redis.expire key (thresholds type).window) s.world ≡ (returned tt, w1)
        → Passes key (record_event redis type subject s).1.world s1.world
        → redis.now s1.world < redis.now s.world + 1000 * (thresholds type).window
        → Spaced (suc n) s0 s1

  recorded_world :
      (s : AbuseState W) (h : RedisHealth) (w1 : W)
      → IsAttempted s h
      → (redis.incr key >> redis.expire key (thresholds type).window) s.world ≡ (returned tt, w1)
      → (record_event redis type subject s).1.world ≡ w1
  unfolding record_event
  recorded_world s h w1 may e = rw may (rw e refl)

  event-count :
      (s s1 : AbuseState W) (w1 : W)
      → (redis.incr key >> redis.expire key (thresholds type).window) s.world ≡ (returned tt, w1)
      → Passes key w1 s1.world
      → redis.now s1.world < redis.now s.world + 1000 * (thresholds type).window
      → count key s1.world ≡ suc (count key s.world)
  event-count s s1 w1 e waits soon =
      let (n, v, added, rest) =
        bind_outcome-returned (redis.incr key s.world)
          (λ _. redis.expire key (thresholds type).window) tt w1 e in
      let (grown, later) = laws.incr-adds key s.world v n added in
      let (kept, lasts) = laws.expire-prolongs key (thresholds type).window v w1 rest in
      laws.wait-keeps key w1 s1.world waits (omega (arith, later, lasts, soon)) ∙ kept ∙ grown

  Spaced-count :
      (n : ℕ) (s0 s : AbuseState W) → Spaced n s0 s → count key s.world ≡ n + count key s0.world
  Spaced-count n s0 s (start t) = omega arith
  Spaced-count n s0 s (event m t0 t t1 h w1 before may e waits soon) =
      event-count t t1 w1 e (subst (λ w. Passes key w t1.world) (recorded_world t h w1 may e) waits)
        soon
      ∙ ap suc (Spaced-count m t0 t before)
      ∙ omega arith

  judged :
      (v : Option String) (m : ℕ)
      → count_of redis v ≡ some m
      → judge_count redis type v ≡ leb (thresholds type).count m
  judged v m e = judged_by type (truthy_text v) (redis.parse_int (or_else v "")) m e

  -- Events that are recorded one after the other, each within the window of the last, are all
  -- counted, however long it is from the first to the last: once the count is read after `n` of
  -- them, the subject is anomalous exactly if `n` has reached the number of the type. No event was
  -- counted before, and all commands are answered.
  pub spaced-counted :
      (n : ℕ) (s0 s : AbuseState W) (h : RedisHealth) (v : Option String) (w : W)
      → count key s0.world ≡ 0
      → Spaced n s0 s
      → IsAttempted s h
      → redis.get key s.world ≡ (returned v, w)
      → (is_anomalous redis type subject s).0 ≡ leb (thresholds type).count n
  unfolding is_anomalous
  spaced-counted n s0 s h v w none_before run may got = rw may (
      rw got (
        judged v (count key s.world) (laws.get-reads key s.world w v got)
        ∙ ap (leb (thresholds type).count) (Spaced-count n s0 s run ∙ omega (arith, none_before))))
