-- ===== src/Pending/Counter.antt =====
-- The counter of packages/cache/src/realtime-clicks.ts while Redis answers.
use package.text.Mathlib.Text.{◌==◌ as str_eq}
use urlfy_cc.Common.{
  ℕ, zero, suc, ◌+◌, ◌-◌, ◌≡◌, refl, ap, ◌∙◌, sym, false, Option, none, some, String, List, [], ◌∷◌,
  arith,
}
use urlfy_cc.Common.Int.{ℤ, pos, negsuc, plus_ℕ, minus_ℕ, pos_part, sub_ℕ}
use urlfy_cc.Common.Effects.{returned, pure, bind_outcome, bind_outcome-returned, caught-some}
use urlfy_cc.Pending.{
  PendingRedis, pending_clicks_key, normalize_amount, keep_alive, after_drain,
  increment_pending_clicks, drain_pending_clicks, get_pending_clicks, read_count,
}

-- A value of Redis prints a number; a key without a value counts as 0.
abbrev pub Prints : (String → Option ℤ) → ℤ → Option String → Type 0
Prints to_number z none = z ≡ pos 0
Prints to_number z (some s) = (str_eq s "" ≡ false) × (to_number s ≡ some z)

-- The values of several keys, one for each.
abbrev pub PrintsAll :
    {W : Type 0}
    → (String → Option ℤ)
    → (String → W → ℤ)
    → W
    → List String
    → List (Option String)
    → Type 0
PrintsAll to_number count w [] [] = Unit
PrintsAll to_number count w [] (v ∷ vs) = ⊥
PrintsAll to_number count w (k ∷ ks) [] = ⊥
PrintsAll to_number count w (k ∷ ks) (v ∷ vs) =
    Prints to_number (count k w) v × PrintsAll to_number count w ks vs

-- What Redis documents of the commands that answer, while no key expires; `count` is the number that
-- a key holds, 0 if it holds none.
pub record PendingLaws {W E : Type 0} (redis : PendingRedis W E) (count : String → W → ℤ)
    : Type 0 where
  pub incrby-adds :
      (key : String) (n : ℕ) (v : ℤ) (w w' : W)
      → redis.incrby key n w ≡ (returned v, w')
      → (v ≡ plus_ℕ (count key w) n) × (count key w' ≡ plus_ℕ (count key w) n)
  pub decrby-takes :
      (key : String) (n : ℕ) (v : ℤ) (w w' : W)
      → redis.decrby key n w ≡ (returned v, w')
      → (v ≡ minus_ℕ (count key w) n) × (count key w' ≡ minus_ℕ (count key w) n)
  pub expire-keeps :
      (key : String) (t : ℕ) (w : W) (j : String) → count j (redis.expire key t w).1 ≡ count j w
  pub del-clears :
      (key : String) (w w' : W) → redis.del key w ≡ (returned tt, w') → count key w' ≡ pos 0
  pub get-reads :
      (key : String) (w w' : W) (v : Option String)
      → redis.get key w ≡ (returned v, w')
      → Prints redis.to_number (count key w) v
  pub mget-reads :
      (keys : List String) (w w' : W) (vs : List (Option String))
      → redis.mget keys w ≡ (returned vs, w')
      → PrintsAll redis.to_number count w keys vs

-- A call that changes the counter.
pub data Change : Type 0 where
  increment drain : Option ℤ → Change

-- The counter that is meant: it grows by each increment, and a drain stops at 0.
abbrev pub changed : List Change → ℕ → ℕ
changed [] n = n
changed (increment a ∷ changes) n = changed changes (n + normalize_amount a)
changed (drain a ∷ changes) n = changed changes (n - normalize_amount a)

module _ {W E : Type 0} (redis : PendingRedis W E) (count : String → W → ℤ)
    (laws : PendingLaws redis count) (link_id : String) where
  open laws use {incrby-adds, decrby-takes, expire-keeps, del-clears, get-reads}

  abbrev pub key : String
  key = pending_clicks_key link_id

  -- The calls for the link, each answered; in between, others may do what leaves its counter alone.
  pub data Runs : List Change → W → W → Type 0 where
    stop : (w : W) → Runs [] w w
    elsewhere :
        (changes : List Change) (w w1 w' : W)
        → count key w1 ≡ count key w
        → Runs changes w1 w'
        → Runs changes w w'
    incremented :
        (a : Option ℤ) (changes : List Change) (v : ℤ) (w w1 w' : W)
        → increment_pending_clicks redis link_id a w ≡ (returned (some v), w1)
        → Runs changes w1 w'
        → Runs (increment a ∷ changes) w w'
    drained :
        (a : Option ℤ) (changes : List Change) (v : ℤ) (w w1 w' : W)
        → drain_pending_clicks redis link_id a w ≡ (returned (some v), w1)
        → Runs changes w1 w'
        → Runs (drain a ∷ changes) w w'

  expired :
      (t : ℕ) (r : Option ℤ) (v : Option ℤ) (w w' : W)
      → bind_outcome (redis.expire key t w) (λ _. pure r) ≡ (returned v, w')
      → count key w' ≡ count key w
  expired t r v w w' e =
      let (_, w1, ran, last) = bind_outcome-returned (redis.expire key t w) (λ _. pure r) v w' e in
      ap (count key) (sym (ap (λ r. r.1) last) ∙ sym (ap (λ r. r.1) ran)) ∙ expire-keeps key t w key

  cleared :
      (r : Option ℤ) (v : Option ℤ) (w w' : W)
      → bind_outcome (redis.del key w) (λ _. pure r) ≡ (returned v, w')
      → count key w' ≡ pos 0
  cleared r v w w' e =
      let (_, w1, ran, last) = bind_outcome-returned (redis.del key w) (λ _. pure r) v w' e in
      ap (count key) (sym (ap (λ r. r.1) last)) ∙ del-clears key w w1 ran

  increment_step :
      (a : Option ℤ) (n : ℕ) (v : ℤ) (w w' : W)
      → count key w ≡ pos n
      → increment_pending_clicks redis link_id a w ≡ (returned (some v), w')
      → count key w' ≡ pos (n + normalize_amount a)
  unfolding increment_pending_clicks
  increment_step a n v w w' start e =
      let (next, w1, added, rest) =
        bind_outcome-returned (redis.incrby key (normalize_amount a) w) (keep_alive redis key)
          (some v) w' (caught-some _ v w' e) in
      expired 86400 (some next) (some v) w1 w' rest
      ∙ (incrby-adds key (normalize_amount a) next w w1 added).1
      ∙ ap (λ z. plus_ℕ z (normalize_amount a)) start

  -- What a drain leaves of the number that DECRBY gave.
  drain_settles :
      (z : ℤ) (v : ℤ) (w w' : W)
      → count key w ≡ z
      → after_drain redis key z w ≡ (returned (some v), w')
      → count key w' ≡ pos (pos_part z)
  drain_settles (pos zero) v w w' h e = cleared (some (pos 0)) (some v) w w' e
  drain_settles (negsuc n) v w w' h e = cleared (some (pos 0)) (some v) w w' e
  drain_settles (pos (suc n)) v w w' h e = expired 86400 (some (pos (suc n))) (some v) w w' e ∙ h

  pos_part-sub : (n m : ℕ) → pos_part (sub_ℕ n m) ≡ n - m
  pos_part-sub n m = ground arith

  drain_step :
      (a : Option ℤ) (n : ℕ) (v : ℤ) (w w' : W)
      → count key w ≡ pos n
      → drain_pending_clicks redis link_id a w ≡ (returned (some v), w')
      → count key w' ≡ pos (n - normalize_amount a)
  unfolding drain_pending_clicks
  drain_step a n v w w' start e =
      let (left, w1, taken, rest) =
        bind_outcome-returned (redis.decrby key (normalize_amount a) w) (after_drain redis key)
          (some v) w' (caught-some _ v w' e) in
      let (given, holds) = decrby-takes key (normalize_amount a) left w w1 taken in
      drain_settles left v w1 w' (holds ∙ sym given) rest
      ∙ ap (λ z. pos (pos_part z)) (given ∙ ap (λ z. minus_ℕ z (normalize_amount a)) start)
      ∙ ap pos (pos_part-sub n (normalize_amount a))

  Runs-count :
      (changes : List Change) (n : ℕ) (w w' : W)
      → Runs changes w w'
      → count key w ≡ pos n
      → count key w' ≡ pos (changed changes n)
  Runs-count changes n w w' (stop v) h = h
  Runs-count changes n w w' (elsewhere cs v v1 v' same rest) h =
      Runs-count cs n v1 v' rest (same ∙ h)
  Runs-count changes n w w' (incremented a cs x v v1 v' e rest) h =
      Runs-count cs (n + normalize_amount a) v1 v' rest (increment_step a n x v v1 h e)
  Runs-count changes n w w' (drained a cs x v v1 v' e rest) h =
      Runs-count cs (n - normalize_amount a) v1 v' rest (drain_step a n x v v1 h e)

  read-Prints :
      (z : ℤ) (v : Option String) → Prints redis.to_number z v → read_count redis v ≡ pos_part z
  read-Prints z none h = ap pos_part (sym h)
  read-Prints z (some s) h = rw h.0 (rw h.1 refl)

  -- A counter that is not below 0 does what it is meant to: after any answered increments and drains,
  -- with calls for other links in between, reading it gives the number that they lead to, where each
  -- drain stops at 0; so it is never read below 0, and a drain of what was added restores it. No key
  -- expires, and the reading is answered.
  pub Runs-refine :
      (changes : List Change) (n : ℕ) (w w' w2 : W) (v : Option String)
      → count key w ≡ pos n
      → Runs changes w w'
      → redis.get key w' ≡ (returned v, w2)
      → get_pending_clicks redis link_id w' ≡ (returned (changed changes n), w2)
  unfolding get_pending_clicks
  Runs-refine changes n w w' w2 v start runs got = rw got (
      ap (λ m. (returned m, w2))
        (read-Prints (count key w') v (get-reads key w' w2 v got)
          ∙ ap pos_part (Runs-count changes n w w' runs start)))
