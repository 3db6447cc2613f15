-- ===== src/Abuse/Tests.antt =====
-- Runs and instances for packages/cache/src/anti-abuse-service.ts.
use package.text.Mathlib.Text.{◌==◌ as str_eq}
use urlfy_cc.Common.{
  ℕ, suc, ◌+◌, ◌*◌, ◌≤◌, ◌≡◌, refl, ap, sym, subst, Bool, true, false, Option, none, some, String,
  ◌⊎◌, arith, if◌then◌else◌,
}
use urlfy_cc.Common.Effects.{Outcome, returned, threw}
use urlfy_cc.Health.{
  initial_health, can_attempt_redis_command, mark_redis_command_success, sync_degraded_state,
}
use urlfy_cc.Abuse.{
  password_reset, AbuseRedis, AbuseState, count_of, blocked_ip_key, record_event, is_anomalous,
  block_ip, is_ip_blocked, record_login_failure,
}
use urlfy_cc.Abuse.Counted.{CountLaws, Spaced, start, event, spaced-counted}
use urlfy_cc.Abuse.Blocked.{BlockLaws, BlockFails, reported_login-blocks}

-- A number that is at most five.
data Figure : Type 0 where
  nil one two three four five : Figure

abbrev number : Figure → ℕ
number nil = 0
number one = 1
number two = 2
number three = 3
number four = 4
number five = 5

abbrev print : Figure → String
print nil = "0"
print one = "1"
print two = "2"
print three = "3"
print four = "4"
print five = "5"

abbrev parse : String → Option ℕ
parse s =
    if str_eq s "5"
    then some 5
    else (if str_eq s "4"
        then some 4
        else (if str_eq s "3"
            then some 3
            else (if str_eq s "2" then some 2 else (if str_eq s "1" then some 1 else some 0))))

-- One subject: its count and when that expires, whether its address is blocked, and the time.
record Memory : Type 0 where
  figure : Figure
  deadline : ℕ
  blocked : Bool
  time : ℕ

abbrev incremented : Figure → Memory → Outcome String ℕ × Memory
incremented nil w = (returned 1, record w { figure = one })
incremented one w = (returned 2, record w { figure = two })
incremented two w = (returned 3, record w { figure = three })
incremented three w = (returned 4, record w { figure = four })
incremented four w = (returned 5, record w { figure = five })
incremented five w = (threw "full", w)

abbrev redis : AbuseRedis Memory
redis = record {
  incr = λ key w. incremented w.figure w;
  expire = λ key ttl w. (returned tt, record w { deadline = w.time + 1000 * ttl });
  get = λ key w. (returned (some (print w.figure)), w);
  set = λ key v w. (returned tt, record w { blocked = true });
  setex = λ key ttl v w. (returned tt, record w { blocked = true });
  exists = λ key w. (returned (if w.blocked then 1 else 0), w);
  del = λ key w. (returned tt, record w { figure = nil; blocked = false });
  now = λ w. w.time;
  parse_int = parse;
  stringify_block = λ reason at. reason;
}

abbrev counted : Outcome String (Option String) × Memory → Option ℕ
counted (returned v, w) = count_of redis v
counted (threw e, w) = none

abbrev count : String → Memory → ℕ
count key w = number w.figure

abbrev deadline : String → Memory → ℕ
deadline key w = w.deadline

abbrev Passes : String → Memory → Memory → Type 0
Passes key w w' = w'.figure ≡ w.figure

after_incr :
    (g : Figure) (m n : ℕ) (w w' : Memory)
    → ◌≡◌ {A = Outcome String ℕ × Memory} (returned m, record w { figure = g }) (returned n, w')
    → (number w'.figure ≡ number g) × (w.time ≤ w'.time)
after_incr g m n w w' e = (
  ap (λ r. number r.1.figure) (sym e),
  omega (arith, ap (λ (r : Outcome String ℕ × Memory). r.1.time) e),
)

incremented-adds :
    (f : Figure) (w w' : Memory) (n : ℕ)
    → incremented f w ≡ (returned n, w')
    → (number w'.figure ≡ suc (number f)) × (w.time ≤ w'.time)
incremented-adds nil w w' n e = after_incr one 1 n w w' e
incremented-adds one w w' n e = after_incr two 2 n w w' e
incremented-adds two w w' n e = after_incr three 3 n w w' e
incremented-adds three w w' n e = after_incr four 4 n w w' e
incremented-adds four w w' n e = after_incr five 5 n w w' e
incremented-adds five w w' n e = cc

printed : (f : Figure) → parse (print f) ≡ some (number f)
printed nil = refl
printed one = refl
printed two = refl
printed three = refl
printed four = refl
printed five = refl

given : (f : Figure) → str_eq (print f) "" ≡ false
given nil = refl
given one = refl
given two = refl
given three = refl
given four = refl
given five = refl

laws : CountLaws redis count deadline Passes
laws = record {
  incr-adds = λ key w w' n e. incremented-adds w.figure w w' n e;
  expire-prolongs = λ key ttl w w' e. (
    ap (λ r. number r.1.figure) (sym e),
    omega (arith, ap (λ (r : Outcome String (Unit {0}) × Memory). r.1.deadline) e),
  );
  wait-keeps = λ key w w' same soon. ap number same;
  get-reads = λ key w w' v e.
      subst (λ r. ◌≡◌ {A = Option ℕ} (counted r) (some (number w.figure))) e
        (rw (given w.figure) (printed w.figure));
}

-- The state after so many events, at a time.
abbrev state : Figure → ℕ → ℕ → AbuseState Memory
state f time deadline = record {
  health = initial_health;
  world = record { figure = f; deadline = deadline; blocked = false; time = time };
}

-- Five requests to reset a password, fifty minutes from one to the next.
slowly :
    Spaced redis count deadline Passes laws password_reset "u1" 5
      (state nil 0 0)
      (state five 15000000 0)
unfolding record_event can_attempt_redis_command sync_degraded_state
slowly =
    event 4 _ (state four 12000000 0) _ _ _
      (event 3 _ (state three 9000000 0) _ _ _
        (event 2 _ (state two 6000000 0) _ _ _
          (event 1 _ (state one 3000000 0) _ _ _
            (event 0 _ (state nil 0 0) _ _ _ (start _) refl refl refl (omega arith)) refl refl refl
            (omega arith))
          refl refl refl (omega arith))
        refl refl refl (omega arith))
      refl refl refl (omega arith)

may : can_attempt_redis_command 15000000 initial_health ≡ (true, initial_health)
unfolding can_attempt_redis_command sync_degraded_state
may = refl

spaced-counted_example : (is_anomalous redis password_reset "u1" (state five 15000000 0)).0 ≡ true
spaced-counted_example =
    spaced-counted redis count deadline Passes laws password_reset "u1" 5 (state nil 0 0)
      (state five 15000000 0) _ _ _ refl slowly may refl

-- A Redis that has always counted fifty.
abbrev crowded : AbuseRedis Memory
crowded = record redis { get = λ key w. (returned (some "50"), w); parse_int = λ s. some 50 }

abbrev is_held : String → Memory → Bool
is_held key w = w.blocked

block_laws : BlockLaws crowded is_held
block_laws = record {
  setex-holds = λ key ttl v w w' e. ap (λ r. r.1.blocked) (sym e);
  exists-reads = λ key w w' n e. ground (arith, e);
}

abbrev after_login : AbuseState Memory
after_login = (record_login_failure crowded "9.9.9.9" (state nil 0 0)).1

reported : record_login_failure crowded "9.9.9.9" (state nil 0 0) ≡ (true, after_login)
unfolding record_login_failure is_anomalous record_event block_ip can_attempt_redis_command
    sync_degraded_state mark_redis_command_success
reported = refl

asked :
    crowded.exists (blocked_ip_key "9.9.9.9") after_login.world ≡ (returned 1, after_login.world)
unfolding record_login_failure is_anomalous record_event block_ip can_attempt_redis_command
    sync_degraded_state mark_redis_command_success
asked = refl

reported_login-blocks_example :
    ((is_ip_blocked crowded "9.9.9.9" after_login).0 ≡ true)
    ⊎ BlockFails crowded is_held block_laws "9.9.9.9" "Excessive login failures" 1800
reported_login-blocks_example =
    reported_login-blocks crowded is_held block_laws "9.9.9.9" (state nil 0 0) after_login 1
      after_login.world reported asked
