-- ===== src/Click/Rows.antt =====
-- The rows that the transactions of apps/worker/src/workers/analytics-click.worker.ts insert, and what
-- they rely on in the database.
use package.text.Mathlib.Text.{◌==◌ as str_eq}
use text.Mathlib.TextEquality.{eq_iff}
use urlfy_cc.Common.{
  ℕ, ◌+◌, ◌≡◌, refl, true, false, Bool, ◌&&◌, String, List, [], ◌∷◌, ◌++◌, map, any, arith,
  if◌then◌else◌, Bool-cases, inl, inr, sym, subst, or_false,
}
use urlfy_cc.Common.Effects.{returned, threw, Eff}
use urlfy_cc.Click.Enrich.{EventRow, Enrichers}
use urlfy_cc.Click.{LinkClickCount, EnrichedEvent, ClickServices, inserted_ids, row_of}
use urlfy_cc.Click.Tally.{counted_for}

module _ {F T : Type 0} where
  -- Rows conflict on the unique index over the message id and the time.
  abbrev pub conflict : (T → T → Bool) → EventRow F T → EventRow F T → Bool
  conflict same_time a b =
      str_eq a.stream_message_id b.stream_message_id && same_time a.created_at b.created_at

  -- The rows of an insert that conflict neither with those before nor with one another.
  unfoldable pub fresh_rows :
      (T → T → Bool) → List (EventRow F T) → List (EventRow F T) → List (EventRow F T)
  fresh_rows same_time old [] = []
  fresh_rows same_time old (row ∷ rows) =
      let known = any (conflict same_time row) old in
      let rest = fresh_rows same_time (if known then old else row ∷ old) rows in
      if known then rest else row ∷ rest

  abbrev pub rows_for : String → List (EventRow F T) → ℕ
  rows_for l [] = 0
  rows_for l (row ∷ rows) = (if str_eq row.link_id l then 1 else 0) + rows_for l rows

  pub rows_for-append :
      (l : String) (xs ys : List (EventRow F T))
      → rows_for l (xs ++ ys) ≡ rows_for l xs + rows_for l ys
  rows_for-append l [] ys = omega arith
  rows_for-append l (x ∷ xs) ys = omega (arith, rows_for-append l xs ys)

  abbrev pub event_ids : List (EnrichedEvent F T) → List String
  event_ids events = map (λ event. event.stream_message_id) events

  -- No id is empty, and none comes twice.
  abbrev pub DistinctIds : List (EnrichedEvent F T) → Type 0
  DistinctIds [] = Unit
  DistinctIds (e ∷ events) =
      (str_eq e.stream_message_id "" ≡ false)
      × (any (str_eq e.stream_message_id) (event_ids events) ≡ false)
      × DistinctIds events

module _ {F T : Type 0} (k : String) (e : EnrichedEvent F T) (events : List (EnrichedEvent F T))
    (h : any (str_eq k) (event_ids (e ∷ events)) ≡ false) where
  absent_head : str_eq k e.stream_message_id ≡ false
  absent_head = (or_false (str_eq k e.stream_message_id) _ h).0

  absent_tail : any (str_eq k) (event_ids events) ≡ false
  absent_tail = (or_false (str_eq k e.stream_message_id) _ h).1

module _ {E F T : Type 0} (enrichers : Enrichers E F T) (same_time : T → T → Bool) where
  abbrev rows_of : List (EnrichedEvent F T) → List (EventRow F T)
  rows_of events = map (row_of enrichers) events

  -- Only ids of the events are inserted.
  fresh-ids :
      (k : String) (old : List (EventRow F T)) (events : List (EnrichedEvent F T))
      → any (str_eq k) (event_ids events) ≡ false
      → any (str_eq k) (inserted_ids (fresh_rows same_time old (rows_of events))) ≡ false
  unfolding fresh_rows
  fresh-ids k old [] h = refl
  fresh-ids k old (e ∷ events) h =
      elim (Bool-cases (any (conflict same_time (row_of enrichers e)) old)) [
        | inl known ↦ rw known (fresh-ids k old events (absent_tail k e events h))
        | inr new ↦ rw new (elim (Bool-cases (str_eq e.stream_message_id "")) [
          | inl empty ↦
              rw empty (fresh-ids k (row_of enrichers e ∷ old) events (absent_tail k e events h))
          | inr named ↦
              rw (named, absent_head k e events h)
                (fresh-ids k (row_of enrichers e ∷ old) events (absent_tail k e events h))
        ])
      ]

  -- An id that none of the events has changes nothing.
  counted_for-cons :
      (l x : String) (ids : List String) (events : List (EnrichedEvent F T))
      → any (str_eq x) (event_ids events) ≡ false
      → counted_for l (x ∷ ids) events ≡ counted_for l ids events
  counted_for-cons l x ids [] h = refl
  counted_for-cons l x ids (e ∷ events) h =
      let other : str_eq e.stream_message_id x ≡ false = ground (
        arith,
        absent_head x e events h,
        eq_iff e.stream_message_id x,
        eq_iff x e.stream_message_id,
      ) in
      rw other (omega (arith, counted_for-cons l x ids events (absent_tail x e events h)))

  fresh-nil : (old : List (EventRow F T)) → fresh_rows same_time old [] ≡ []
  unfolding fresh_rows
  fresh-nil old = refl

  fresh-known :
      (row : EventRow F T) (old rows : List (EventRow F T))
      → any (conflict same_time row) old ≡ true
      → fresh_rows same_time old (row ∷ rows) ≡ fresh_rows same_time old rows
  unfolding fresh_rows
  fresh-known row old rows e = rw e refl

  fresh-new :
      (row : EventRow F T) (old rows : List (EventRow F T))
      → any (conflict same_time row) old ≡ false
      → fresh_rows same_time old (row ∷ rows) ≡ row ∷ fresh_rows same_time (row ∷ old) rows
  unfolding fresh_rows
  fresh-new row old rows e = rw e refl

  pub fresh-one :
      (row : EventRow F T) (old : List (EventRow F T))
      → fresh_rows same_time old (row ∷ [])
        ≡ (if any (conflict same_time row) old then [] else row ∷ [])
  unfolding fresh_rows
  fresh-one row old = refl

  inserted-cons :
      (e : EnrichedEvent F T) (f : List (EventRow F T))
      → str_eq e.stream_message_id "" ≡ false
      → inserted_ids (row_of enrichers e ∷ f) ≡ e.stream_message_id ∷ inserted_ids f
  inserted-cons e f named = rw named refl

  counted-first :
      (l : String) (e : EnrichedEvent F T) (events : List (EnrichedEvent F T))
      (f : List (EventRow F T))
      → DistinctIds (e ∷ events)
      → counted_for l (inserted_ids f) events ≡ rows_for l f
      → counted_for l (inserted_ids (row_of enrichers e ∷ f)) (e ∷ events)
        ≡ rows_for l (row_of enrichers e ∷ f)
  counted-first l e events f h same =
      let self : str_eq e.stream_message_id e.stream_message_id ≡ true = (eq_iff _ _).1 refl in
      subst (λ ids. counted_for l ids (e ∷ events) ≡ rows_for l (row_of enrichers e ∷ f))
        (sym (inserted-cons e f h.0))
        (rw self
          (omega (arith, counted_for-cons l e.stream_message_id (inserted_ids f) events h.1, same)))

  -- With distinct ids, the events that are counted for a link are as many as its new rows.
  pub counted-fresh :
      (l : String) (old : List (EventRow F T)) (events : List (EnrichedEvent F T))
      → DistinctIds events
      → counted_for l (inserted_ids (fresh_rows same_time old (rows_of events))) events
        ≡ rows_for l (fresh_rows same_time old (rows_of events))
  counted-fresh l old [] h = rw (fresh-nil old) refl
  counted-fresh l old (e ∷ events) h =
      elim (Bool-cases (any (conflict same_time (row_of enrichers e)) old)) [
        | inl known ↦
            subst (λ f. counted_for l (inserted_ids f) (e ∷ events) ≡ rows_for l f)
              (sym (fresh-known (row_of enrichers e) old (rows_of events) known))
              (rw (fresh-ids e.stream_message_id old events h.1)
                (omega (arith, counted-fresh l old events h.2)))
        | inr new ↦
            subst (λ f. counted_for l (inserted_ids f) (e ∷ events) ≡ rows_for l f)
              (sym (fresh-new (row_of enrichers e) old (rows_of events) new))
              (counted-first l e events
                (fresh_rows same_time (row_of enrichers e ∷ old) (rows_of events)) h
                (counted-fresh l (row_of enrichers e ∷ old) events h.2))
      ]

-- What the transactions rely on. `clicks` is the count of a link that the table of links holds, and
-- `rows` are the events. An insert skips the rows that conflict and returns the others; an update
-- adds to one link; a transaction that returns has made what its body made, and one that throws has
-- made nothing.
pub record CountsRows {D R E F T : Type 0} (services : ClickServices D R E F T)
    (same_time : T → T → Bool) (rows : D → List (EventRow F T)) (has_link : D → String → Bool)
    (clicks : D → String → ℕ) : Type 0 where
  pub insert-rows :
      (new out : List (EventRow F T)) (d d' : D)
      → services.insert_events new d ≡ (returned out, d')
      → (out ≡ fresh_rows same_time (rows d) new) × (rows d' ≡ rows d ++ out)
  pub insert-clicks :
      (new : List (EventRow F T)) (d : D) (l : String)
      → (clicks (services.insert_events new d).1 l ≡ clicks d l)
        × (has_link (services.insert_events new d).1 l ≡ has_link d l)
  pub add-clicks :
      (k : String) (n : ℕ) (t : T) (d d' : D) (l : String)
      → services.add_clicks k n t d ≡ (returned tt, d')
      → has_link d l ≡ true
      → clicks d' l ≡ clicks d l + (if str_eq k l then n else 0)
  pub add-rows :
      (k : String) (n : ℕ) (t : T) (d : D)
      → (rows (services.add_clicks k n t d).1 ≡ rows d)
        × ((l : String) → has_link (services.add_clicks k n t d).1 l ≡ has_link d l)
  pub commits :
      (m : Eff D E (List (LinkClickCount T))) (d d' : D) (counts : List (LinkClickCount T))
      → services.transaction m d ≡ (returned counts, d')
      → m d ≡ (returned counts, d')
  pub rolls_back :
      (m : Eff D E (List (LinkClickCount T))) (d d' : D) (e : E)
      → services.transaction m d ≡ (threw e, d')
      → d' ≡ d
