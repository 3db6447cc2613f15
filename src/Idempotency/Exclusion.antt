-- ===== src/Idempotency/Exclusion.antt =====
-- What apps/api/src/server/lib/idempotency.ts answers while the first request is at work.
use package.text.Mathlib.TextEquality.{eq_iff}
use urlfy_cc.Common.{
  ◌≡◌, refl, ◌≢◌, ◌⊎◌, inl, inr, Bool, true, false, Option, none, some, String, arith, truthy_text,
  or_else, Bool-cases, ◌∙◌, ap, not, ◌&&◌,
}
use package.text.Mathlib.Text.{◌==◌ as str_eq}
use urlfy_cc.Common.Effects.{returned}
use urlfy_cc.Health.{can_attempt_redis_command}
use urlfy_cc.Idempotency.{
  IdempotencyRedis, JsonApi, conflict, in_progress, Scope, build_scoped_key, build_lock_key,
  lock_ttl_seconds, judge_pending, IdempotencyState, check_idempotency, acquire_idempotency_lock,
}

judge_pending_lem :
    (current : Option String) (p : String)
    → p ≢ ""
    → (judge_pending current (some p) ≡ in_progress) ⊎ (judge_pending current (some p) ≡ conflict)
judge_pending_lem current p given =
    elim (Bool-cases
      (truthy_text current && (not (str_eq p "pending") && not (str_eq p (or_else current ""))))) [
        | inl other ↦ inr (ground (arith, other, given, eq_iff p ""))
        | inr same ↦ inl (ground (arith, same, given, eq_iff p ""))
      ]

module _ (redis : IdempotencyRedis) (json : JsonApi) (scope : Scope) where
  open redis use {Store, value, get, set_nx_ex, clock, get-reads, set_nx-writes, set_nx-refuses}

  -- Once a request has taken the lock, no other takes it, and a check finds the work in progress or a
  -- conflict, never a key that was not seen, as long as Redis is tried and answers, the lock is
  -- there, and no outcome is stored; the payload hash may be left out, but not be empty, and the two
  -- keys of the scope have to differ.
  pub locked-excludes :
      (hash other : Option String) (w w1 w2 w3 w4 : Store) (s : IdempotencyState redis json)
      (b : Bool) (v p : Option String)
      → or_else hash "pending" ≢ ""
      → build_scoped_key scope ≢ build_lock_key scope
      → value (build_scoped_key scope) w ≡ none
      → set_nx_ex (build_lock_key scope) (or_else hash "pending") lock_ttl_seconds w
        ≡ (returned true, w1)
      → s.world ≡ w1
      → (can_attempt_redis_command (clock w1) s.health).0 ≡ true
      → set_nx_ex (build_lock_key scope) (or_else other "pending") lock_ttl_seconds w1
        ≡ (returned b, w2)
      → get (build_scoped_key scope) w1 ≡ (returned v, w3)
      → get (build_lock_key scope) w3 ≡ (returned p, w4)
      → ((acquire_idempotency_lock redis json scope other s).0 ≡ false)
        × (((check_idempotency redis json scope other s).0 ≡ in_progress)
            ⊎ ((check_idempotency redis json scope other s).0 ≡ conflict))
  unfolding check_idempotency acquire_idempotency_lock
  locked-excludes hash other w w1 w2 w3 w4 s b v p given apart empty won at may_try tried read_key
        read_lock =
      let (free, held, rest) = set_nx-writes _ _ _ _ _ won in
      let none_there : v ≡ none =
        (get-reads _ _ _ _ read_key).0 ∙ rest (build_scoped_key scope) apart ∙ empty in
      let lock_there : p ≡ some (or_else hash "pending") =
        (get-reads _ _ _ _ read_lock).0
        ∙ (get-reads _ _ _ _ read_key).1 (build_lock_key scope)
        ∙ held in
      (
        elim (Bool-cases b) [
          | inr refused ↦ rw (at, may_try, tried, refused) refl
          | inl again ↦ absurd (
              cc (
                held,
                (set_nx-writes (build_lock_key scope) (or_else other "pending") lock_ttl_seconds w1
                    w2 (tried ∙ ap (λ x. (returned x, w2)) again)).0,
              ))
        ],
        rw (at, may_try, read_key, none_there, read_lock, lock_there)
            (judge_pending_lem other (or_else hash "pending") given),
      )
