-- ===== src/Limiter/Memory/Bounds.antt =====
-- The memory limiter of packages/cache/src/rate-limiter-core.ts stays within its size.
use urlfy_cc.Common.{
  ℕ, ◌≤◌, ◌+◌, ◌≡◌, ◌≢◌, Bool, some, String, List, [], ◌∷◌, length, keep, leb, arith, All,
  Option-cases, Bool-cases, ltb, length-keep-le, inl, inr,
}
use text.Mathlib.TextEquality.{eq_iff}
use urlfy_cc.Common.JsMap.{
  get, set, delete, length-set-le, length-set-eq_of_get, length-delete-lt_of_first,
}
use urlfy_cc.Limiter.Memory.{Counter, Counters, evict, check, cleanup, max_entries}

-- At most ten thousand entries, and no empty key (the keys are `prefix:key`).
pub record IsBounded (m : Counters) : Type 0 where
  pub small : length m ≤ max_entries
  pub named : All (λ e. e.0 ≢ "") m

length-evict-lt : (m : Counters) → IsBounded m → length (evict m) + 1 ≤ max_entries
unfolding evict
length-evict-lt [] b = ground arith
length-evict-lt ((j, w) ∷ m) b = ground (arith, eq_iff j "", length-delete-lt_of_first j w m)

module _ {V : Type 0} where
  All-set :
      (k : String) (v : V) (m : List (String × V))
      → k ≢ ""
      → All (λ e. e.0 ≢ "") m
      → All (λ e. e.0 ≢ "") (set k v m)
  unfolding set
  All-set k v [] h a = (h, tt)
  All-set k v ((j, w) ∷ m) h (p, a) = ground (arith, All-set k v m h a)

  All-delete :
      (k : String) (m : List (String × V))
      → All (λ e. e.0 ≢ "") m
      → All (λ e. e.0 ≢ "") (delete k m)
  unfolding delete
  All-delete k [] a = tt
  All-delete k ((j, w) ∷ m) (p, a) = ground (arith, All-delete k m a)

  All-keep :
      (q : String × V → Bool) (m : List (String × V))
      → All (λ e. e.0 ≢ "") m
      → All (λ e. e.0 ≢ "") (keep q m)
  All-keep q [] a = tt
  All-keep q (e ∷ m) (p, a) = ground (arith, All-keep q m a)

All-evict : (m : Counters) → All (λ e. e.0 ≢ "") m → All (λ e. e.0 ≢ "") (evict m)
unfolding evict
All-evict [] a = ground arith
All-evict ((j, w) ∷ m) a = ground (arith, All-delete j ((j, w) ∷ m) a)

set-IsBounded_new :
    (key : String) (c : Counter) (m : Counters)
    → key ≢ ""
    → IsBounded m
    → IsBounded (set key c (evict m))
set-IsBounded_new key c m h b = record {
  small = omega (arith, length-set-le key c (evict m), length-evict-lt m b);
  named = All-set key c (evict m) h (All-evict m b.named);
}

set-IsBounded_old :
    (key : String) (c w : Counter) (m : Counters)
    → key ≢ ""
    → get key m ≡ some w
    → IsBounded m
    → IsBounded (set key c m)
set-IsBounded_old key c w m h found b = record {
  small = omega (arith, length-set-eq_of_get key c w m found);
  named = All-set key c m h b.named;
}

-- A check keeps the map within ten thousand entries, for any key, limit and time.
pub check-IsBounded :
    (key : String) (points duration_ms now : ℕ) (m : Counters)
    → key ≢ ""
    → IsBounded m
    → IsBounded (check key points duration_ms now m).1
unfolding check
check-IsBounded key points d now m h b = elim (Option-cases (get key m)) [
  | inl missing ↦ rw (missing, check) (set-IsBounded_new key _ m h b)
  | inr (c, found) ↦
      rw (found, check)
        (elim (Bool-cases (leb c.reset_at now)) [
          | inl over ↦ rw over (set-IsBounded_old key _ c m h found b)
          | inr current ↦ rw current (set-IsBounded_old key _ c m h found b)
        ])
]

pub cleanup-IsBounded : (now : ℕ) (m : Counters) → IsBounded m → IsBounded (cleanup now m)
unfolding cleanup
cleanup-IsBounded now m b = record {
  small = omega (arith, length-keep-le (λ e. ltb now (e.1).reset_at) m);
  named = All-keep (λ e. ltb now (e.1).reset_at) m b.named;
}
