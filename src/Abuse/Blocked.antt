-- ===== src/Abuse/Blocked.antt =====
-- The blocks of packages/cache/src/anti-abuse-service.ts.
use urlfy_cc.Common.{
  ℕ, ◌≡◌, refl, ap, ◌∙◌, sym, subst, Bool, true, false, none, String, ◌==◌, inl, inr, ◌⊎◌,
  if◌then◌else◌,
}
use urlfy_cc.Common.Effects.{Outcome, returned, threw, pure, ◌>>=◌}
use urlfy_cc.Health.{
  RedisHealth, can_attempt_redis_command, mark_redis_command_success, sync_degraded_state,
}
use urlfy_cc.Abuse.{
  EventType, login_failures, link_creation, AbuseRedis, AbuseState, settled, record_event,
  is_anomalous, block_ip, is_ip_blocked, send_block, blocked_ip_key, answer_anomaly,
  record_login_failure, record_link_creation, judge_count, abuse_key,
}

-- What Redis documents of the commands that answer: `held` says that a key holds a value.
pub record BlockLaws {W : Type 0} (redis : AbuseRedis W) (held : String → W → Bool) : Type 0 where
  pub setex-holds :
      (key : String) (ttl : ℕ) (v : String) (w w' : W)
      → redis.setex key ttl v w ≡ (returned tt, w')
      → held key w' ≡ true
  pub exists-reads :
      (key : String) (w w' : W) (n : ℕ)
      → redis.exists key w ≡ (returned n, w')
      → n ≡ (if held key w then 1 else 0)

module _ {W : Type 0} (redis : AbuseRedis W) (held : String → W → Bool)
    (laws : BlockLaws redis held) where
  -- The last command that was sent was answered.
  abbrev pub IsAnswered : AbuseState W → Type 0
  IsAnswered s = (h : RedisHealth) × (s.health ≡ mark_redis_command_success (redis.now s.world) h)

  answered-may :
      (s : AbuseState W)
      → IsAnswered s
      → (h : RedisHealth) × (can_attempt_redis_command (redis.now s.world) s.health ≡ (true, h))
  unfolding can_attempt_redis_command mark_redis_command_success sync_degraded_state
  answered-may s (h, e) = (_, ap (can_attempt_redis_command (redis.now s.world)) e ∙ refl)

  settled-IsAnswered :
      (h : RedisHealth) (r : Outcome String Bool × W) (s1 : AbuseState W)
      → settled redis false false h r ≡ (true, s1)
      → IsAnswered s1
  settled-IsAnswered h (returned b, w) s1 e = subst IsAnswered (ap (λ r. r.1) e) (h, refl)
  settled-IsAnswered h (threw x, w) s1 e = cc

  gated-IsAnswered :
      (gate : Bool × RedisHealth) (r : Outcome String Bool × W) (s s1 : AbuseState W)
      → (if gate.0
          then settled redis false false gate.1 r
          else (false, record { health = gate.1; world = s.world }))
        ≡ (true, s1)
      → IsAnswered s1
  gated-IsAnswered (true, h) r s s1 e = settled-IsAnswered h r s1 e
  gated-IsAnswered (false, h) r s s1 e = cc

  anomalous-IsAnswered :
      (type : EventType) (key : String) (s s1 : AbuseState W)
      → is_anomalous redis type key s ≡ (true, s1)
      → IsAnswered s1
  unfolding is_anomalous
  anomalous-IsAnswered type key s s1 e =
      gated-IsAnswered (can_attempt_redis_command (redis.now s.world) s.health)
        ((redis.get (abuse_key type key) >>= λ raw. pure (judge_count redis type raw)) s.world) s s1
        e

  -- The command that blocks the address throws, which the service only logs.
  abbrev pub BlockFails : String → String → ℕ → Type 0
  BlockFails ip reason ttl =
      (v : W) × (e : String) × ((send_block redis (blocked_ip_key ip) ttl reason v).0 ≡ threw e)

  settled-blocks :
      (h : RedisHealth) (ip reason : String) (ttl : ℕ) (v : W) (r : Outcome String (Unit {0}) × W)
      (n : ℕ) (w2 : W)
      → r ≡ send_block redis (blocked_ip_key ip) ttl reason v
      → redis.exists (blocked_ip_key ip) (settled redis false tt h r).1.world ≡ (returned n, w2)
      → ((is_ip_blocked redis ip (settled redis false tt h r).1).0 ≡ true)
        ⊎ BlockFails ip reason ttl
  unfolding is_ip_blocked
  settled-blocks h ip reason ttl v (returned _, w) n w2 sent e =
      let (h1, may) =
        answered-may (record { health = mark_redis_command_success (redis.now w) h; world = w })
          (h, refl) in
      let holds =
        laws.setex-holds (blocked_ip_key ip) ttl (redis.stringify_block reason (redis.now v)) v w
          (sym sent) in
      inl (
        rw may (
          rw e (ap (λ m. m == 1) (laws.exists-reads (blocked_ip_key ip) w w2 n e) ∙ rw holds refl)))
  settled-blocks h ip reason ttl v (threw x, w) n w2 sent e = inr (v, x, ap (λ r. r.0) (sym sent))

  -- What is asked right after the block was sent.
  abbrev pub BlockedOrFails : String → String → ℕ → AbuseState W → Type 0
  BlockedOrFails ip reason ttl s =
      (n : ℕ) (w2 : W)
      → redis.exists (blocked_ip_key ip) s.world ≡ (returned n, w2)
      → ((is_ip_blocked redis ip s).0 ≡ true) ⊎ BlockFails ip reason ttl

  block_ip-blocks :
      (ip reason : String) (ttl : ℕ) (s : AbuseState W)
      → IsAnswered s
      → BlockedOrFails ip reason ttl (block_ip redis ip reason ttl s).1
  unfolding block_ip
  block_ip-blocks ip reason ttl s ok =
      let (h, may) = answered-may s ok in
      let sent = send_block redis (blocked_ip_key ip) ttl reason s.world in
      let same : block_ip redis ip reason ttl s ≡ settled redis false tt h sent = rw may refl in
      subst (λ r. BlockedOrFails ip reason ttl r.1) (sym same)
        (λ n w2 e. settled-blocks h ip reason ttl s.world sent n w2 refl e)

  anomaly-blocks :
      (ip reason : String) (ttl : ℕ) (verdict : Bool × AbuseState W) (s' : AbuseState W)
      → ((s1 : AbuseState W) → verdict ≡ (true, s1) → IsAnswered s1)
      → answer_anomaly redis true ip reason ttl verdict ≡ (true, s')
      → BlockedOrFails ip reason ttl s'
  anomaly-blocks ip reason ttl (false, s1) s' ok e = cc
  anomaly-blocks ip reason ttl (true, s1) s' ok e =
      subst (BlockedOrFails ip reason ttl) (ap (λ r. r.1) e)
        (block_ip-blocks ip reason ttl s1 (ok s1 refl))

  -- When a failed login is reported as one too many, the address is blocked: asked at once, with an
  -- answer of Redis, the service says that it is, unless the command that blocks it threw.
  pub reported_login-blocks :
      (ip : String) (s s1 : AbuseState W) (n : ℕ) (w2 : W)
      → record_login_failure redis ip s ≡ (true, s1)
      → redis.exists (blocked_ip_key ip) s1.world ≡ (returned n, w2)
      → ((is_ip_blocked redis ip s1).0 ≡ true) ⊎ BlockFails ip "Excessive login failures" 1800
  unfolding record_login_failure
  reported_login-blocks ip s s1 n w2 e asked =
      let before = (record_event redis login_failures ip s).1 in
      anomaly-blocks ip "Excessive login failures" 1800
        (is_anomalous redis login_failures ip before) s1
        (λ t e1. anomalous-IsAnswered login_failures ip before t e1) e n w2 asked

  -- The same for a new link of a guest.
  pub reported_creation-blocks :
      (ip : String) (s s1 : AbuseState W) (n : ℕ) (w2 : W)
      → record_link_creation redis none ip s ≡ (true, s1)
      → redis.exists (blocked_ip_key ip) s1.world ≡ (returned n, w2)
      → ((is_ip_blocked redis ip s1).0 ≡ true) ⊎ BlockFails ip "Excessive link creation" 600
  unfolding record_link_creation
  reported_creation-blocks ip s s1 n w2 e asked =
      let before = (record_event redis link_creation ip s).1 in
      anomaly-blocks ip "Excessive link creation" 600 (is_anomalous redis link_creation ip before)
        s1 (λ t e1. anomalous-IsAnswered link_creation ip before t e1) e n w2 asked
