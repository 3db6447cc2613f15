-- ===== src/Idempotency/Replay.antt =====
-- What a repeated request is answered by apps/api/src/server/lib/idempotency.ts.
use package.text.Mathlib.TextEquality.{eq_iff}
use urlfy_cc.Common.{
  ℕ, ◌≡◌, refl, ◌≢◌, ◌↔◌, ◌⊎◌, inl, inr, true, Option, none, some, String, arith, truthy_text,
  Bool-cases, ◌∙◌, if◌then◌else◌,
}
use urlfy_cc.Common.Effects.{returned}
use urlfy_cc.Health.{
  RedisHealth, can_attempt_redis_command, mark_redis_command_success, sync_degraded_state,
}
use urlfy_cc.Idempotency.{
  IdempotencyRedis, IdempotencyRecord, JsonApi, of_record, hit, conflict, Scope, build_scoped_key,
  ttl_seconds, differs, judge_record, IdempotencyState, check_idempotency, make_record,
  set_idempotency,
}

-- Two given payload hashes that are not the same.
abbrev pub IsOther : Option String → Option String → Type 0
IsOther current stored =
    (a b : String) × (current ≡ some a) × (stored ≡ some b) × (a ≢ "") × (b ≢ "") × (a ≢ b)

differs→ : (current stored : Option String) → differs current stored ≡ true → IsOther current stored
differs→ (some a) (some b) h = (
  a,
  b,
  refl,
  refl,
  ground (arith, eq_iff a "", h),
  ground (arith, eq_iff b "", h),
  ground (arith, eq_iff b a, h),
)
differs→ none stored h = cc
differs→ (some a) none h = absurd (ground (arith, h))

→differs : (current stored : Option String) → IsOther current stored → differs current stored ≡ true
→differs current stored (a, b, e, f, na, nb, other) =
    rw (e, f) (ground (arith, eq_iff a "", eq_iff b "", eq_iff b a, na, nb, other))

judge_record_lem :
    (current : Option String) (r : IdempotencyRecord)
    → ((judge_record current r ≡ conflict) ⊎ (judge_record current r ≡ hit r.resource_id))
      × ((judge_record current r ≡ conflict) ↔ IsOther current r.payload_hash)
judge_record_lem current r = elim (Bool-cases (differs current r.payload_hash)) [
  | inl yes_differs ↦
      (inl (rw yes_differs refl), (λ _. differs→ _ _ yes_differs, λ _. rw yes_differs refl))
  | inr same ↦ (
    inr (rw same refl),
    (λ h. absurd (ground (arith, same)), λ o. absurd (cc (same, →differs _ _ o))),
  )
]

IsOther-kept :
    (current hash : Option String)
    → IsOther current (if truthy_text hash then hash else none) ↔ IsOther current hash
IsOther-kept current none = (λ o. o, λ o. o)
IsOther-kept current (some h) = elim (Bool-cases (truthy_text (some h))) [
  | inl there ↦ rw there (λ o. o, λ o. o)
  | inr empty ↦ rw empty (
    (λ (a, b, e, f, na, nb, other). cc f),
    (λ (a, b, e, f, na, nb, other). absurd (ground (arith, empty, f, nb, eq_iff h ""))),
  )
]

opens_after_success :
    (now later : ℕ) (health : RedisHealth)
    → (can_attempt_redis_command later (mark_redis_command_success now health)).0 ≡ true
unfolding can_attempt_redis_command mark_redis_command_success sync_degraded_state
opens_after_success now later health = ground arith

module _ (redis : IdempotencyRedis) (json : JsonApi) (scope : Scope) where
  open redis use {Store, get, set_ex, clock, get-reads, set-writes}

  -- After the outcome of a request was stored, a request with the same key is answered with the
  -- resource that was created, and refused as a conflict exactly if both requests gave a payload hash
  -- that is not empty and the two differ; while Redis is tried, answers both and keeps the key, and
  -- JSON reads back the record that it wrote as a text that is not empty.
  pub stored-replays :
      (id : String) (hash current : Option String) (s : IdempotencyState redis json) (w1 w2 : Store)
      (v : Option String)
      → json.parse (json.stringify (make_record redis json id hash))
        ≡ some (of_record (make_record redis json id hash))
      → json.stringify (make_record redis json id hash) ≢ ""
      → (can_attempt_redis_command (clock s.world) s.health).0 ≡ true
      → set_ex
          (build_scoped_key scope)
          (json.stringify (make_record redis json id hash))
          ttl_seconds
          s.world
        ≡ (returned tt, w1)
      → get (build_scoped_key scope) w1 ≡ (returned v, w2)
      → let answer =
          (check_idempotency redis json scope current
            (set_idempotency redis json scope id hash s).1).0 in
        ((answer ≡ conflict) ⊎ (answer ≡ hit id)) × ((answer ≡ conflict) ↔ IsOther current hash)
  unfolding check_idempotency set_idempotency
  stored-replays id hash current s w1 w2 v reads filled may_try stored got =
      let text = json.stringify (make_record redis json id hash) in
      let there : v ≡ some text = (get-reads _ _ _ _ got).0 ∙ set-writes _ _ _ _ _ stored in
      let truthy : truthy_text (some text) ≡ true = ground (arith, filled, eq_iff text "") in
      let (either, iff) = judge_record_lem current (make_record redis json id hash) in
      rw (may_try, stored, opens_after_success _ _ _, got, there, truthy, reads)
        (
          either,
          (
            λ c. (IsOther-kept current hash).0 (iff.0 c),
            λ o. iff.1 ((IsOther-kept current hash).1 o),
          ),
        )
