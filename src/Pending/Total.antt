-- ===== src/Pending/Total.antt =====
-- The total that packages/cache/src/realtime-clicks.ts reads for several links.
use package.text.Mathlib.Text.{◌==◌ as str_eq}
use text.Mathlib.TextEquality.{eq_iff}
use urlfy_cc.Common.{
  ℕ, zero, suc, ◌+◌, ◌≡◌, refl, ap, ◌∙◌, sym, true, false, Option, none, some, String, List, [],
  ◌∷◌, map, any, keep, arith, truthy_text, not, ◌&&◌, or_true, Bool-cases, inl, inr,
}
use urlfy_cc.Common.Int.{ℤ, pos_part}
use urlfy_cc.Common.Effects.{returned, pure, bind_outcome}
use urlfy_cc.Common.JsMap.{set}
use urlfy_cc.Pending.{
  PendingRedis, pending_clicks_key, positive_or_zero, unique, unique_link_ids, sum_counts,
  read_entry, set_positive, collect, read_all, get_pending_clicks_map, get_pending_clicks_total,
}
use urlfy_cc.Pending.Counter.{PendingLaws, Prints, PrintsAll}

-- No text of the list stands in it twice, nor among those that were seen.
abbrev pub IsFresh : List String → List String → Type 0
IsFresh seen [] = Unit
IsFresh seen (x ∷ xs) = (any (str_eq x) seen ≡ false) × IsFresh (x ∷ seen) xs

unique-IsFresh : (seen xs : List String) → IsFresh seen (unique seen xs)
unfolding unique
unique-IsFresh seen [] = tt
unique-IsFresh seen (x ∷ xs) = elim (Bool-cases (any (str_eq x) seen)) [
  | inl known ↦ rw known (unique-IsFresh seen xs)
  | inr new ↦ rw new (new, unique-IsFresh (x ∷ seen) xs)
]

-- What is kept of a list are its texts, but those that were seen and the empty one.
any-unique :
    (x : String) (seen xs : List String)
    → any (str_eq x) (unique seen xs) ≡ (not (any (str_eq x) seen) && any (str_eq x) xs)
unfolding unique
any-unique x seen [] = elim (Bool-cases (any (str_eq x) seen)) [
  | inl old ↦ rw old refl
  | inr new ↦ rw new refl
]
any-unique x seen (y ∷ ys) = elim (Bool-cases (str_eq x y)) [
  | inl same ↦
      let e : any (str_eq y) seen ≡ any (str_eq x) seen =
        ap (λ t. any (str_eq t) seen) (sym ((eq_iff x y).0 same)) in
      rw e (
        rw same (elim (Bool-cases (any (str_eq x) seen)) [
          | inl old ↦ rw old (any-unique x seen ys ∙ rw old refl)
          | inr new ↦ rw new (rw same refl)
        ]))
  | inr other ↦ rw other (elim (Bool-cases (any (str_eq y) seen)) [
    | inl old ↦ rw old (any-unique x seen ys)
    | inr new ↦ rw new (rw other (any-unique x (y ∷ seen) ys ∙ rw other refl))
  ])
]

any-keep :
    (x : String) (xs : List String)
    → any (str_eq x) (keep (λ id. truthy_text (some id)) xs)
      ≡ (truthy_text (some x) && any (str_eq x) xs)
any-keep x [] = elim (Bool-cases (str_eq x "")) [
  | inl empty ↦ rw empty refl
  | inr given ↦ rw given refl
]
any-keep x (y ∷ ys) = elim (Bool-cases (str_eq x y)) [
  | inl same ↦
      let e : str_eq y "" ≡ str_eq x "" = ap (λ t. str_eq t "") (sym ((eq_iff x y).0 same)) in
      rw e (elim (Bool-cases (str_eq x "")) [
        | inl empty ↦ rw empty (any-keep x ys ∙ rw empty refl)
        | inr given ↦ rw given (rw same refl)
      ])
  | inr other ↦ rw other (elim (Bool-cases (str_eq y "")) [
    | inl empty ↦ rw empty (any-keep x ys)
    | inr given ↦ rw given (rw other (any-keep x ys))
  ])
]

-- The keys of the map are among those seen.
abbrev KeysSeen : List String → List (String × ℕ) → Type 0
KeysSeen seen [] = Unit
KeysSeen seen ((k, n) ∷ m) = (any (str_eq k) seen ≡ true) × KeysSeen seen m

KeysSeen-cons :
    (x : String) (seen : List String) (m : List (String × ℕ))
    → KeysSeen seen m
    → KeysSeen (x ∷ seen) m
KeysSeen-cons x seen [] h = tt
KeysSeen-cons x seen ((k, n) ∷ m) h = (or_true (str_eq k x) _ h.0, KeysSeen-cons x seen m h.1)

differs :
    (k x : String) (seen : List String)
    → any (str_eq k) seen ≡ true
    → any (str_eq x) seen ≡ false
    → str_eq k x ≡ false
differs k x seen old new = elim (Bool-cases (str_eq k x)) [
  | inl same ↦
      let e : k ≡ x = (eq_iff k x).0 same in
      absurd (true_false (sym old ∙ ap (λ t. any (str_eq t) seen) e ∙ new))
  | inr other ↦ other
]
  where
    true_false : true ≡ false → ⊥
    true_false h = cc

-- A new key comes last, and is added to the sum.
set-fresh :
    (x : String) (n : ℕ) (seen : List String) (m : List (String × ℕ))
    → KeysSeen seen m
    → any (str_eq x) seen ≡ false
    → (sum_counts (set x n m) ≡ sum_counts m + n) × KeysSeen (x ∷ seen) (set x n m)
unfolding set
set-fresh x n seen [] h new =
    let self : str_eq x x ≡ true = (eq_iff x x).1 refl in (omega arith, (rw self refl, tt))
set-fresh x n seen ((k, v) ∷ m) h new =
    let other = differs k x seen h.0 new in
    let rest = set-fresh x n seen m h.1 new in
    rw other (omega (arith, rest.0), (or_true (str_eq k x) _ h.0, rest.1))

set_positive-fresh :
    (x : String) (n : ℕ) (seen : List String) (m : List (String × ℕ))
    → KeysSeen seen m
    → any (str_eq x) seen ≡ false
    → (sum_counts (set_positive x n m) ≡ sum_counts m + n)
      × KeysSeen (x ∷ seen) (set_positive x n m)
set_positive-fresh x zero seen m h new = (omega arith, KeysSeen-cons x seen m h)
set_positive-fresh x (suc n) seen m h new = set-fresh x (suc n) seen m h new

module _ {W E : Type 0} (redis : PendingRedis W E) (count : String → W → ℤ) where
  -- The sum over the ids, each as often as it stands there.
  abbrev pub sum_over : W → List String → ℕ
  sum_over w [] = 0
  sum_over w (id ∷ ids) = pos_part (count (pending_clicks_key id) w) + sum_over w ids

  entry-Prints :
      (z : ℤ) (v : Option String) → Prints redis.to_number z v → read_entry redis v ≡ pos_part z
  entry-Prints z none h = ap pos_part (sym h)
  entry-Prints z (some s) h = ap positive_or_zero h.1

  collect-sum :
      (w : W) (ids : List String) (values : List (Option String)) (seen : List String)
      (m : List (String × ℕ))
      → IsFresh seen ids
      → KeysSeen seen m
      → PrintsAll redis.to_number count w (map pending_clicks_key ids) values
      → sum_counts (collect redis ids values m) ≡ sum_counts m + sum_over w ids
  unfolding collect
  collect-sum w [] [] seen m fresh h p = omega arith
  collect-sum w [] (v ∷ vs) seen m fresh h p = elim p [ ]
  collect-sum w (id ∷ ids) [] seen m fresh h p = elim p [ ]
  collect-sum w (id ∷ ids) (v ∷ vs) seen m fresh h p =
      let step = set_positive-fresh id (read_entry redis v) seen m h fresh.0 in
      omega (
        arith,
        step.0,
        entry-Prints (count (pending_clicks_key id) w) v p.0,
        collect-sum w ids vs (id ∷ seen) (set_positive id (read_entry redis v) m) fresh.1 step.1
            p.1,
      )

  module _ (laws : PendingLaws redis count) where
    read-sum :
        (ids : List String) (w w' : W) (vs : List (Option String))
        → IsFresh [] ids
        → redis.mget (map pending_clicks_key ids) w ≡ (returned vs, w')
        → PrintsAll redis.to_number count w (map pending_clicks_key ids) vs
        → (bind_outcome (read_all redis ids w) (λ counts. pure (sum_counts counts))).0
          ≡ returned (sum_over w ids)
    read-sum [] w w' vs fresh e p = refl
    read-sum (id ∷ ids) w w' vs fresh e p =
        rw e (ap (λ n. returned n) (collect-sum w (id ∷ ids) vs [] [] fresh tt p ∙ omega arith))

    -- If the counters that the code asks for are read, the total is the sum of those above 0 over a list
    -- of ids in which each id that is given and not empty stands, once, and no other: so every such
    -- link counts once, however often its id is given.
    pub total_lem :
        (link_ids : List String) (w w' : W) (vs : List (Option String))
        → redis.mget (map pending_clicks_key (unique_link_ids link_ids)) w ≡ (returned vs, w')
        → (ids : List String) × ((get_pending_clicks_total redis link_ids w).0
            ≡ returned (sum_over w ids))
          × IsFresh [] ids
          × ((x : String) → any (str_eq x) ids ≡ (truthy_text (some x) && any (str_eq x) link_ids))
    unfolding get_pending_clicks_total get_pending_clicks_map
    total_lem link_ids w w' vs e =
        let ids = unique_link_ids link_ids in
        let fresh = unique-IsFresh [] (keep (λ id. truthy_text (some id)) link_ids) in
        (
          ids,
          read-sum ids w w' vs fresh e (laws.mget-reads (map pending_clicks_key ids) w w' vs e),
          fresh,
          λ x. any-unique x [] (keep (λ id. truthy_text (some id)) link_ids) ∙ any-keep x link_ids,
        )
