-- ===== src/Pending.antt =====
-- The pending clicks of packages/cache/src/realtime-clicks.ts: clicks that were admitted and are not
-- yet in the database, counted for each link in Redis.
pub mod Counter
pub mod Lost
pub mod Total
mod Tests
use Prim.Native.String.{◌++◌ as ◌<>◌}
use package.text.Mathlib.Text.{◌==◌ as str_eq}
use urlfy_cc.Common.{
  ℕ, zero, suc, ◌+◌, Bool, true, false, not, Option, none, some, String, List, [], ◌∷◌, map, any,
  keep, if◌then◌else◌, truthy_text,
}
use urlfy_cc.Common.Int.{ℤ, pos, negsuc, pos_part}
use urlfy_cc.Common.Effects.{Outcome, returned, threw, Eff, pure, catch, ◌>>=◌, ◌>>◌}
use urlfy_cc.Common.JsMap.{set}

-- The commands of Redis that are sent, and `Number`, which is `none` where it is not finite.
pub record PendingRedis (W E : Type 0) : Type 0 where
  pub incrby : String → ℕ → Eff W E ℤ
  pub decrby : String → ℕ → Eff W E ℤ
  pub expire : String → ℕ → Eff W E (Unit {0})
  pub del : String → Eff W E (Unit {0})
  pub get : String → Eff W E (Option String)
  pub mget : List String → Eff W E (List (Option String))
  pub to_number : String → Option ℤ

-- `CACHE_KEYS.ANALYTICS_PENDING_CLICKS`
abbrev pub pending_clicks_key : String → String
pending_clicks_key link_id = "analytics:pending-clicks:" <> link_id

abbrev pub pending_clicks_ttl : ℕ
pending_clicks_ttl = 86400

-- `normalizeAmount` of a whole number; `none` is no finite number.
abbrev pub normalize_amount : Option ℤ → ℕ
normalize_amount none = 1
normalize_amount (some (pos zero)) = 1
normalize_amount (some (pos (suc n))) = suc n
normalize_amount (some (negsuc n)) = 1

-- What is finite and above 0, and 0 otherwise.
abbrev pub positive_or_zero : Option ℤ → ℕ
positive_or_zero none = 0
positive_or_zero (some z) = pos_part z

-- `[...new Set(ids)]` without the ids that were seen.
unfoldable pub unique : List String → List String → List String
unique seen [] = []
unique seen (x ∷ xs) =
    let known = any (str_eq x) seen in
    let rest = unique (if known then seen else x ∷ seen) xs in if known then rest else x ∷ rest

-- The ids that are not empty, each once.
abbrev pub unique_link_ids : List String → List String
unique_link_ids link_ids = unique [] (keep (λ id. truthy_text (some id)) link_ids)

abbrev pub sum_counts : List (String × ℕ) → ℕ
sum_counts [] = 0
sum_counts ((id, n) ∷ counts) = n + sum_counts counts

abbrev pub set_positive : String → ℕ → List (String × ℕ) → List (String × ℕ)
set_positive id zero counts = counts
set_positive id (suc n) counts = set id (suc n) counts

module _ {W E : Type 0} (redis : PendingRedis W E) where
  open redis use {incrby, decrby, expire, del, get, mget, to_number}

  abbrev pub keep_alive : String → ℤ → Eff W E (Option ℤ)
  keep_alive key next_value = expire key pending_clicks_ttl >> pure (some next_value)

  -- `incrementPendingClicks`; what Redis counts is finite.
  unfoldable pub increment_pending_clicks : String → Option ℤ → Eff W E (Option ℤ)
  increment_pending_clicks link_id amount =
      catch
        (incrby (pending_clicks_key link_id) (normalize_amount amount)
          >>= keep_alive (pending_clicks_key link_id))
        (λ _. pure none)

  abbrev pub after_drain : String → ℤ → Eff W E (Option ℤ)
  after_drain key (pos zero) = del key >> pure (some (pos 0))
  after_drain key (negsuc n) = del key >> pure (some (pos 0))
  after_drain key (pos (suc n)) = expire key pending_clicks_ttl >> pure (some (pos (suc n)))

  -- `drainPendingClicks`
  unfoldable pub drain_pending_clicks : String → Option ℤ → Eff W E (Option ℤ)
  drain_pending_clicks link_id amount =
      catch
        (decrby (pending_clicks_key link_id) (normalize_amount amount)
          >>= after_drain (pending_clicks_key link_id))
        (λ _. pure none)

  abbrev pub read_count : Option String → ℕ
  read_count none = 0
  read_count (some value) =
      if truthy_text (some value) then positive_or_zero (to_number value) else 0

  -- `getPendingClicks`
  unfoldable pub get_pending_clicks : String → Eff W E ℕ
  get_pending_clicks link_id =
      catch (get (pending_clicks_key link_id) >>= λ value. pure (read_count value)) (λ _. pure 0)

  -- `Number(values[index] ?? '0')`, if it is above 0.
  abbrev pub read_entry : Option String → ℕ
  read_entry none = 0
  read_entry (some value) = positive_or_zero (to_number value)

  -- The loop over the indices; a missing value is 0.
  unfoldable pub collect :
      List String → List (Option String) → List (String × ℕ) → List (String × ℕ)
  collect [] values counts = counts
  collect (id ∷ ids) [] counts = collect ids [] counts
  collect (id ∷ ids) (v ∷ values) counts =
      collect ids values (set_positive id (read_entry v) counts)

  abbrev pub read_all : List String → Eff W E (List (String × ℕ))
  read_all [] = pure []
  read_all (id ∷ ids) =
      catch
        (mget (map pending_clicks_key (id ∷ ids)) >>= λ values. pure (collect (id ∷ ids) values []))
        (λ _. pure [])

  -- `getPendingClicksMap`
  unfoldable pub get_pending_clicks_map : List String → Eff W E (List (String × ℕ))
  get_pending_clicks_map link_ids = read_all (unique_link_ids link_ids)

  -- `getPendingClicksTotal`
  unfoldable pub get_pending_clicks_total : List String → Eff W E ℕ
  get_pending_clicks_total link_ids =
      get_pending_clicks_map link_ids >>= λ counts. pure (sum_counts counts)
