-- ===== src/Idempotency/Tests.antt =====
-- Runs and instances for apps/api/src/server/lib/idempotency.ts, with Redis as a map.
use package.text.Mathlib.Text.{◌==◌ as str_eq}
use package.text.Mathlib.TextEquality.{eq_iff}
use urlfy_cc.Common.{
  ◌≡◌, refl, ◌≢◌, ◌↔◌, ◌⊎◌, Bool, true, false, Option, none, some, String, List, [], arith, ap, sym,
  ◌∙◌,
}
use urlfy_cc.Common.Effects.{Outcome, returned, returned_injective}
use urlfy_cc.Common.JsMap.{get, set, delete, get-set}
use urlfy_cc.Health.{initial_health, can_attempt_redis_command, sync_degraded_state}
use urlfy_cc.Idempotency.{
  IdempotencyRedis, IdempotencyRecord, JsonApi, of_record, hit, conflict, in_progress, Scope,
  build_lock_key, build_scoped_key, IdempotencyState, check_idempotency, set_idempotency,
  acquire_idempotency_lock,
}
use urlfy_cc.Idempotency.Replay.{IsOther, stored-replays}
use urlfy_cc.Idempotency.Exclusion.{locked-excludes}

abbrev Entries : Type 0
Entries = List (String × String)

set_if_absent : String → String → Option String → Entries → Outcome String Bool × Entries
set_if_absent key v none w = (returned true, set key v w)
set_if_absent key v (some old) w = (returned false, w)

absent_writes :
    (key v : String) (old : Option String) (w w' : Entries)
    → set_if_absent key v old w ≡ (returned true, w')
    → (old ≡ none) × (w' ≡ set key v w)
unfolding set_if_absent
absent_writes key v none w w' e = (refl, sym (ap (λ r. r.1) e))
absent_writes key v (some old) w w' e = cc

present_keeps :
    (key v : String) (old : Option String) (w w' : Entries)
    → set_if_absent key v old w ≡ (returned false, w')
    → (old ≢ none) × (w' ≡ w)
unfolding set_if_absent
present_keeps key v none w w' e = cc
present_keeps key v (some old) w w' e = (λ f. cc, sym (ap (λ r. r.1) e))

get_set_same : (key v : String) (w : Entries) → get key (set key v w) ≡ some v
get_set_same key v w = get-set key key v w ∙ ground (arith, eq_iff key key)

get_set_other : (key j v : String) (w : Entries) → j ≢ key → get j (set key v w) ≡ get j w
get_set_other key j v w other = get-set key j v w ∙ ground (arith, eq_iff key j, other)

apart : (a b : String) → str_eq a b ≡ false → a ≢ b
apart a b h e = ground (arith, eq_iff a b)

abbrev map_redis : IdempotencyRedis
map_redis = record {
  Store = Entries;
  value = get;
  get = λ key w. (returned (get key w), w);
  set_ex = λ key v ttl w. (returned tt, set key v w);
  set_nx_ex = λ key v ttl w. set_if_absent key v (get key w) w;
  del = λ key w. (returned tt, delete key w);
  clock = λ w. 0;
  get-reads = λ key w w' v e.
      (sym (returned_injective (ap (λ r. r.0) e)), λ j. ap (get j) (sym (ap (λ r. r.1) e)));
  set-writes = λ key v ttl w w' e. ap (get key) (sym (ap (λ r. r.1) e)) ∙ get_set_same key v w;
  set_nx-writes = λ key v ttl w w' e.
      let (free, same) = absent_writes key v (get key w) w w' e in
      (
        free,
        ap (get key) same ∙ get_set_same key v w,
        λ j other. ap (get j) same ∙ get_set_other key j v w other,
      );
  set_nx-refuses = λ key v ttl w w' e.
      let (busy, same) = present_keeps key v (get key w) w w' e in (busy, λ j. ap (get j) same);
}

abbrev stored_record : IdempotencyRecord
stored_record = record { resource_id = "r1"; payload_hash = some "h1" }

abbrev one_record : JsonApi
one_record = record { parse = λ s. some (of_record stored_record); stringify = λ r. "{}" }

abbrev scope : Scope
scope = record { key = "0123456789abcdef"; principal = "u1"; route = "POST /links" }

abbrev at_first : IdempotencyState map_redis one_record
at_first = record { health = initial_health; world = [] }

stored-replays_example :
    let answer =
      (check_idempotency map_redis one_record scope
        (some "h2")
        (set_idempotency map_redis one_record scope "r1" (some "h1") at_first).1).0 in
    ((answer ≡ conflict) ⊎ (answer ≡ hit "r1"))
    × ((answer ≡ conflict) ↔ IsOther (some "h2") (some "h1"))
unfolding can_attempt_redis_command sync_degraded_state
stored-replays_example =
    stored-replays map_redis one_record scope "r1" (some "h1") (some "h2") at_first
      (set (build_scoped_key scope) "{}" []) (set (build_scoped_key scope) "{}" [])
      (get (build_scoped_key scope) (set (build_scoped_key scope) "{}" [])) refl (λ e. cc) refl refl
      refl

abbrev locked : Entries
locked = set (build_lock_key scope) "h1" []

abbrev while_locked : IdempotencyState map_redis one_record
while_locked = record { health = initial_health; world = locked }

nothing_stored : get (build_scoped_key scope) locked ≡ none
unfolding get set
nothing_stored = refl

first_wins :
    set_if_absent (build_lock_key scope) "h1" (get (build_lock_key scope) []) []
    ≡ (returned true, locked)
unfolding set_if_absent get
first_wins = refl

second_loses :
    set_if_absent (build_lock_key scope) "h2" (get (build_lock_key scope) locked) locked
    ≡ (returned false, locked)
unfolding set_if_absent get set
second_loses = refl

none_in : (key : String) → get {V = String} key [] ≡ none
unfolding get
none_in key = refl

locked-excludes_example :
    ((acquire_idempotency_lock map_redis one_record scope (some "h2") while_locked).0 ≡ false)
    × (((check_idempotency map_redis one_record scope (some "h2") while_locked).0 ≡ in_progress)
        ⊎ ((check_idempotency map_redis one_record scope (some "h2") while_locked).0 ≡ conflict))
unfolding can_attempt_redis_command sync_degraded_state
locked-excludes_example =
    locked-excludes map_redis one_record scope (some "h1") (some "h2") [] locked locked locked
      locked while_locked false (get (build_scoped_key scope) locked)
      (get (build_lock_key scope) locked) (λ e. cc)
      (apart (build_scoped_key scope) (build_lock_key scope) refl)
      (none_in (build_scoped_key scope)) first_wins refl refl second_loses refl refl
