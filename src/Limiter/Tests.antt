-- ===== src/Limiter/Tests.antt =====
-- Runs and instances for packages/cache/src/rate-limiter-core.ts.
use urlfy_cc.Common.{
  ◌⊎◌, ℕ, ◌+◌, ◌-◌, ◌≡◌, refl, true, false, none, String, List, [], ◌∷◌, ◌++◌, arith, keep, ltb,
  length, if◌then◌else◌,
}
use text.Mathlib.Text.{◌==◌ as str_eq}
use text.Mathlib.TextEquality.{eq_iff}
use text.Mathlib.TextPositions.{eq_refl}
use urlfy_cc.Common.Effects.{returned}
use urlfy_cc.Health.{initial_health, other_reply, can_attempt_redis_command}
use urlfy_cc.Limiter.Defs.{RateLimitConfig}
use urlfy_cc.Limiter.Memory.Quota.{Request}
use urlfy_cc.Limiter.Window.{SortedSets, sliding_window_lua}
use urlfy_cc.Limiter.Window.Spec.{count_after, hit, History, start, let_through}
use urlfy_cc.Limiter.Window.Quota.{sliding_window_exact}
use urlfy_cc.Limiter.Check.{
  Client, LimiterState, check_limit, eval_sliding_window, after_evaluation, window_args,
  reconnect_and_warm_redis,
}
use urlfy_cc.Limiter.Check.Closed.{Answers, check_limit_closed}
use urlfy_cc.Limiter.Check.Coherent.{IsCoherent, check_limit-IsCoherent}

abbrev requests : List Request
requests = ("rl:a", 5) ∷ ("rl:b", 6) ∷ ("rl:a", 7) ∷ []

-- Every key has its own list.
abbrev Sets : Type 0
Sets = String → List (ℕ × String)

abbrev at_key : String → List (ℕ × String) → Sets → Sets
at_key key es w = λ j. if str_eq j key then es else w j

at_key_self : (key : String) (es : List (ℕ × String)) (w : Sets) → at_key key es w key ≡ es
at_key_self key es w = rw (eq_refl key)

abbrev lists : SortedSets
lists = record {
  Store = Sets;
  entries = λ key w. w key;
  zremrangebyscore = λ key s w. at_key key (keep (λ e. ltb s e.0) (w key)) w;
  zcard = λ key w. length (w key);
  zadd = λ key s member w. at_key key (w key ++ (s, member) ∷ []) w;
  expire = λ key ttl w. w;
  entries-zremrangebyscore = λ key s w. at_key_self key (keep (λ e. ltb s e.0) (w key)) w;
  zcard_lem = λ key w. refl;
  entries-zadd = λ key s member w new. at_key_self key (w key ++ (s, member) ∷ []) w;
  entries-expire = λ key ttl w. refl;
}

abbrev no_entries : Sets
no_entries = λ key. []

abbrev after_one : Sets
after_one = (hit lists "rl:a" 1 60 70000 "m" no_entries).1

hit_one : hit lists "rl:a" 1 60 70000 "m" no_entries ≡ ((1, 1), after_one)
unfolding sliding_window_lua
hit_one = refl

one_hit : History lists "rl:a" 1 60 70000 (70000 ∷ []) after_one
one_hit = let_through 70000 "m" 1 after_one (start 0 refl) (omega arith) tt hit_one

after_one_entries : after_one "rl:a" ≡ (70000, "m") ∷ []
unfolding sliding_window_lua
after_one_entries = refl

sliding_window_exact_example :
    (hit lists "rl:a" 1 60 80000 "n" after_one).0
    ≡ (let n = count_after (80000 - 60000) (70000 ∷ []) in if ltb n 1 then (1, n + 1) else (0, n))
unfolding sliding_window_lua
sliding_window_exact_example =
    sliding_window_exact lists "rl:a" 1 60 70000 (70000 ∷ []) after_one 80000 "n" one_hit
      (omega arith) ((λ e. cc ((eq_iff "m" "n").1 e)), tt)

-- A client that lets every request through.
abbrev generous : Client (Unit {0})
generous = record {
  evalsha = λ sha args w. (returned (1, 4), w);
  script_load = λ w. (returned "sha", w);
  ping = λ w n. other_reply;
  timed_out = λ w. false;
  has_client = λ w. true;
  close_fails = λ w. false;
  is_override = false;
}

abbrev at_start : LimiterState (Unit {0})
at_start = record { health = initial_health; memory = []; script_sha = none; world = tt }

abbrev admin : RateLimitConfig
admin = record { points = 30; duration = 60; fail_closed = true }

let_in : (check_limit generous "ip:1" admin "rl" 99000 "m" at_start).0.allowed ≡ true
unfolding check_limit after_evaluation eval_sliding_window can_attempt_redis_command
let_in = refl

check_limit_closed_example :
    ((count : ℕ) × Answers generous at_start.script_sha
        (window_args generous "ip:1" admin "rl" 99000 "m")
        (1, count))
    × (((can_attempt_redis_command 99000 at_start.health).0 ≡ true)
        ⊎ ((reconnect_and_warm_redis generous 99000
              (record at_start { health = (can_attempt_redis_command 99000 at_start.health).1 })).0
            ≡ true))
check_limit_closed_example =
    check_limit_closed generous "ip:1" admin "rl" 99000 "m" refl at_start let_in

check_limit-IsCoherent_example :
    IsCoherent admin 99000 (check_limit generous "ip:1" admin "rl" 99000 "m" at_start).0
check_limit-IsCoherent_example =
    check_limit-IsCoherent generous "ip:1" admin "rl" 99000 "m" at_start
