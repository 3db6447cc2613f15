-- ===== src/Pending/Tests.antt =====
-- Runs and instances for packages/cache/src/realtime-clicks.ts.
use Prim.Native.Char.{code}
use package.text.Mathlib.Text.{◌==◌ as str_eq}
use text.Mathlib.TextEquality.{eq_iff}
use urlfy_cc.Common.{
  any, truthy_text, ◌&&◌, ℕ, zero, suc, ◌≡◌, refl, ap, ◌∙◌, sym, Bool, true, false, Option, none,
  some, String, List, [], ◌∷◌, map, if◌then◌else◌, arith, ◌==◌, subst,
}
use urlfy_cc.Common.Int.{ℤ, pos, negsuc, plus_ℕ, minus_ℕ}
use urlfy_cc.Common.Texts.{cons-ne_empty}
use urlfy_cc.Common.Effects.{Outcome, returned, threw}
use urlfy_cc.Common.JsMap.{set}
use urlfy_cc.Pending.{
  PendingRedis, pending_clicks_key, increment_pending_clicks, unique_link_ids, drain_pending_clicks,
  get_pending_clicks, get_pending_clicks_total, get_pending_clicks_map, collect, unique,
}
use urlfy_cc.Pending.Counter.{
  PendingLaws, Prints, PrintsAll, Change, increment, drain, changed, Runs, stop, incremented,
  drained, Runs-refine,
}
use urlfy_cc.Redirect.Link.{RedirectResult, found_302}
use urlfy_cc.Route.{Limit, RouteServices}
use urlfy_cc.Pending.Lost.{answers, all_refused, refused-leaves_clicks}
use urlfy_cc.Pending.Total.{total_lem, sum_over, IsFresh}

-- Numbers as texts: a sign and as many marks.
marks : ℕ → String
marks zero = ""
marks (suc n) = String.◌∷◌ "1" (marks n)

size : String → ℕ
size String.[] = 0
size (String.◌∷◌ c s) = suc (size s)

size-marks : (n : ℕ) → size (marks n) ≡ n
unfolding size marks
size-marks zero = refl
size-marks (suc n) = ap suc (size-marks n)

print : ℤ → String
print (pos n) = String.◌∷◌ "+" (marks n)
print (negsuc n) = String.◌∷◌ "-" (marks n)

read : String → Option ℤ
read String.[] = none
read (String.◌∷◌ c s) = some (if code c == 43 then pos (size s) else negsuc (size s))

read-print : (z : ℤ) → read (print z) ≡ some z
unfolding read print
read-print (pos n) = ap (λ k. some (pos k)) (size-marks n)
read-print (negsuc n) = ap (λ k. some (negsuc k)) (size-marks n)

print-ne_empty : (z : ℤ) → str_eq (print z) "" ≡ false
unfolding print
print-ne_empty (pos n) = cons-ne_empty "+" (marks n)
print-ne_empty (negsuc n) = cons-ne_empty "-" (marks n)

abbrev Store : Type 0
Store = String → ℤ

abbrev put : String → ℤ → Store → Store
put key v w j = if str_eq key j then v else w j

-- `up` is whether EXPIRE is answered.
abbrev redis_while : Bool → PendingRedis Store String
redis_while up = record {
  incrby = λ key n w. (returned (plus_ℕ (w key) n), put key (plus_ℕ (w key) n) w);
  decrby = λ key n w. (returned (minus_ℕ (w key) n), put key (minus_ℕ (w key) n) w);
  expire = λ key t w. (if up then returned tt else threw "down", w);
  del = λ key w. (returned tt, put key (pos 0) w);
  get = λ key w. (returned (some (print (w key))), w);
  mget = λ keys w. (returned (map (λ key. some (print (w key))) keys), w);
  to_number = read;
}

abbrev count : String → Store → ℤ
count key w = w key

put_self : (key : String) (v : ℤ) (w : Store) → put key v w key ≡ v
put_self key v w = let self : str_eq key key ≡ true = (eq_iff key key).1 refl in rw self refl

prints_all :
    (w : Store) (keys : List String)
    → PrintsAll read count w keys (map (λ key. some (print (w key))) keys)
prints_all w [] = tt
prints_all w (k ∷ keys) = ((print-ne_empty (w k), read-print (w k)), prints_all w keys)

laws : (up : Bool) → PendingLaws (redis_while up) count
laws up = record {
  incrby-adds = λ key n v w w' e. (
    ground (arith, e),
    ap (λ (r : Outcome String ℤ × Store). r.1 key) (sym e) ∙ put_self key _ w,
  );
  decrby-takes = λ key n v w w' e. (
    ground (arith, e),
    ap (λ (r : Outcome String ℤ × Store). r.1 key) (sym e) ∙ put_self key _ w,
  );
  expire-keeps = λ key t w j. refl;
  del-clears = λ key w w' e.
      ap (λ (r : Outcome String (Unit {0}) × Store). r.1 key) (sym e) ∙ put_self key _ w;
  get-reads = λ key w w' v e.
      let same : some (print (w key)) ≡ v = cc in
      subst (Prints read (w key)) same (print-ne_empty (w key), read-print (w key));
  mget-reads = λ keys w w' vs e.
      let same : map (λ key. some (print (w key))) keys ≡ vs = cc in
      subst (PrintsAll read count w keys) same (prints_all w keys);
}

abbrev redis : PendingRedis Store String
redis = redis_while true

abbrev start : Store
start key = pos 0

abbrev key : String
key = pending_clicks_key "l"

abbrev after_five : Store
after_five = put key (plus_ℕ (start key) 5) start

abbrev after_seven : Store
after_seven = put key (pos 0) (put key (minus_ℕ (after_five key) 7) after_five)

abbrev changes : List Change
changes = increment (some (pos 5)) ∷ drain (some (pos 7)) ∷ []

drained_below :
    drain_pending_clicks redis "l" (some (pos 7)) after_five
    ≡ (returned (some (pos 0)), after_seven)
unfolding drain_pending_clicks
drained_below = refl

five_added :
    increment_pending_clicks redis "l" (some (pos 5)) start ≡ (returned (some (pos 5)), after_five)
unfolding increment_pending_clicks
five_added = refl

five_then_seven : Runs redis count (laws true) "l" changes start after_seven
five_then_seven =
    incremented (some (pos 5)) (drain (some (pos 7)) ∷ []) (pos 5) start after_five after_seven
      five_added
      (drained (some (pos 7)) [] (pos 0) after_five after_seven after_seven drained_below
        (stop after_seven))

Runs-refine_example :
    get_pending_clicks redis "l" after_seven ≡ (returned (changed changes 0), after_seven)
Runs-refine_example =
    Runs-refine redis count (laws true) "l" changes 0 start after_seven after_seven
      (some (print (after_seven key))) refl five_then_seven refl

abbrev limited : RedirectResult
limited = record {
  success = true;
  url = some "https://example.org/";
  redirect_type = some found_302;
  error = none;
  link_id = some "l";
  cache_hit = some false;
  requires_click_reservation = some true;
}

abbrev free : Limit
free = record { allowed = true; retry_after = none }

abbrev services : RouteServices Store String
services = record {
  check_ip_limit = λ w. (returned free, w);
  check_link_limit = λ code w. (returned free, w);
  unlock_cookie = λ code w. (returned none, w);
  verify_token = λ token code w. false;
  track_request = λ w. (returned tt, w);
  resolve = λ input w. (returned limited, w);
  reserve = λ id w. (returned none, w);
  revert = λ id w. (returned tt, w);
  enqueue = λ code id w. (returned tt, w);
  accepts_url = λ url. true;
  invalid_url = "invalid";
}

refused-leaves_clicks_example :
    ((answers (redis_while false) services none "q1" "abc" limited 3 start).0
      ≡ all_refused (redis_while false) services none "q1" "abc" limited 3)
    × (count
          (pending_clicks_key "l")
          (answers (redis_while false) services none "q1" "abc" limited 3 start).1
        ≡ pos 3)
refused-leaves_clicks_example =
    refused-leaves_clicks (redis_while false) services none "q1" "abc" limited count (laws false)
      "l" refl refl refl refl (λ n w. (_, _, refl)) (λ w. (_, _, refl)) 3 0 start refl

abbrev ids : List String
ids = "l" ∷ "" ∷ "m" ∷ "l" ∷ []

total_lem_example :
    (distinct : List String) × ((get_pending_clicks_total redis ids after_five).0
      ≡ returned (sum_over redis count after_five distinct))
    × IsFresh [] distinct
    × ((x : String) → any (str_eq x) distinct ≡ (truthy_text (some x) && any (str_eq x) ids))
total_lem_example =
    total_lem redis count (laws true) ids after_five after_five
      (map (λ k. some (print (after_five k))) (map pending_clicks_key (unique_link_ids ids))) refl

total_five : (get_pending_clicks_total redis ids after_five).0 ≡ returned 5
unfolding get_pending_clicks_total get_pending_clicks_map collect read print marks size set unique
total_five = refl
