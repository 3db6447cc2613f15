-- ===== src/Cache/Memory.antt =====
-- Redis in memory, for runs of packages/redirect-domain/src/cache-service.ts.
use package.text.Mathlib.Text.{◌==◌ as str_eq}
use urlfy_cc.Common.{
  ℕ, ap, sym, Option, none, some, String, List, [], ◌∷◌, any, if◌then◌else◌, arith,
}
use urlfy_cc.Common.Effects.{Outcome, returned}
use urlfy_cc.Cache.{CacheRedis}
use urlfy_cc.Cache.Codec.{stringify, parse, parse-stringify, stringify-text}
use urlfy_cc.Cache.Forget.{CacheLaws, present}

-- What the keys hold; the time stands still.
abbrev pub Store : Type 0
Store = String → Option String

abbrev pub value : String → Store → Option String
value key w = w key

abbrev pub write : String → String → Store → Store
write key v w j = if str_eq key j then some v else w j

abbrev pub redis : CacheRedis Store String
redis = record {
  get = λ key w. (returned (w key), w);
  setex = λ key ttl v w. (returned tt, write key v w);
  ttl = λ key w. (returned 60, w);
  exists = λ key w. (returned (present (w key)), w);
  del = λ keys w. (returned tt, λ j. if any (str_eq j) keys then none else w j);
  smembers = λ key w. (returned [], w);
  scan = λ cursor pattern count w.
      if str_eq cursor "0" then (returned ("7", "a" ∷ []), w) else (returned ("0", "b" ∷ []), w);
  eval_on = λ f w. f w;
  flushall = λ w. (returned tt, λ j. none);
  now = λ w. 5;
  roll = λ w. 3;
  parse = parse;
  stringify = stringify;
}

pub laws : CacheLaws redis value
laws = record {
  get-reads = λ key w w' v e.
      (ground (arith, e), λ j. ap (λ (r : Outcome String (Option String) × Store). r.1 j) (sym e));
  exists-reads = λ key w w' n e.
      (ground (arith, e), λ j. ap (λ (r : Outcome String ℕ × Store). r.1 j) (sym e));
  ttl-reads = λ key w w' n e j. ap (λ (r : Outcome String ℕ × Store). r.1 j) (sym e);
  smembers-reads =
      λ key w w' m e j. ap (λ (r : Outcome String (List String) × Store). r.1 j) (sym e);
  setex-writes =
      λ key ttl v w w' e j. ap (λ (r : Outcome String (Unit {0}) × Store). r.1 j) (sym e);
  del-removes = λ keys w w' e j. ap (λ (r : Outcome String (Unit {0}) × Store). r.1 j) (sym e);
  parse-stringify = parse-stringify;
  stringify-text = stringify-text;
}
