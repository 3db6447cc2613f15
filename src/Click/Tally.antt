-- ===== src/Click/Tally.antt =====
-- What `buildLinkClickCounts` of apps/worker/src/workers/analytics-click.worker.ts counts.
use package.text.Mathlib.Text.{◌==◌ as str_eq}
use text.Mathlib.TextEquality.{eq_iff}
use urlfy_cc.Common.{
  ℕ, ◌+◌, ◌≡◌, refl, Bool, Option, none, some, String, List, [], ◌∷◌, map, any, arith,
  if◌then◌else◌, Bool-cases, inl, inr, ◌∙◌, sym,
}
use urlfy_cc.Common.JsMap.{get, set}
use urlfy_cc.Click.Enrich.{EnrichedClickEvent}
use urlfy_cc.Click.{
  LinkClickCount, EnrichedEvent, counted_entry, count_event, count_events, build_link_click_counts,
}

module _ {T : Type 0} where
  -- The clicks of a link in a list of counts.
  abbrev pub clicks_for : String → List (LinkClickCount T) → ℕ
  clicks_for l [] = 0
  clicks_for l (c ∷ cs) = (if str_eq c.link_id l then c.count else 0) + clicks_for l cs

  abbrev pub values : List (String × LinkClickCount T) → List (LinkClickCount T)
  values counts = map (λ entry. entry.1) counts

  -- Each entry stands under its link.
  abbrev pub IsKeyed : List (String × LinkClickCount T) → Type 0
  IsKeyed [] = Unit
  IsKeyed ((k, c) ∷ m) = (c.link_id ≡ k) × IsKeyed m

  abbrev count_or_zero : String → String → Option (LinkClickCount T) → ℕ
  count_or_zero k l none = 0
  count_or_zero k l (some c) = if str_eq k l then c.count else 0

  abbrev KeyedAt : String → Option (LinkClickCount T) → Type 0
  KeyedAt k none = Unit
  KeyedAt k (some c) = c.link_id ≡ k

  get-KeyedAt :
      (k : String) (m : List (String × LinkClickCount T)) → IsKeyed m → KeyedAt k (get k m)
  unfolding get
  get-KeyedAt k [] h = tt
  get-KeyedAt k ((j, c) ∷ m) h = elim (Bool-cases (str_eq j k)) [
    | inl same ↦ rw same (h.0 ∙ (eq_iff j k).0 same)
    | inr other ↦ rw other (get-KeyedAt k m h.1)
  ]

  set-IsKeyed :
      (k : String) (c : LinkClickCount T) (m : List (String × LinkClickCount T))
      → c.link_id ≡ k
      → IsKeyed m
      → IsKeyed (set k c m)
  unfolding set
  set-IsKeyed k c [] e h = (e, tt)
  set-IsKeyed k c ((j, d) ∷ m) e h = elim (Bool-cases (str_eq j k)) [
    | inl same ↦ rw same (e ∙ sym ((eq_iff j k).0 same), h.1)
    | inr other ↦ rw other (h.0, set-IsKeyed k c m e h.1)
  ]

  -- An entry that is set takes the place of the one before.
  clicks_for-set :
      (k l : String) (c : LinkClickCount T) (m : List (String × LinkClickCount T))
      → c.link_id ≡ k
      → IsKeyed m
      → clicks_for l (values (set k c m)) + count_or_zero k l (get k m)
        ≡ clicks_for l (values m) + (if str_eq k l then c.count else 0)
  unfolding get set
  clicks_for-set k l c [] e h = rw e (omega arith)
  clicks_for-set k l c ((j, d) ∷ m) e h = elim (Bool-cases (str_eq j k)) [
    | inl same ↦ rw (same, e, h.0, (eq_iff j k).0 same) (omega arith)
    | inr other ↦ rw other (omega (arith, clicks_for-set k l c m e h.1))
  ]

module _ {F T : Type 0} where
  -- The events of a link among those whose rows were inserted.
  abbrev pub counted_for : String → List String → List (EnrichedEvent F T) → ℕ
  counted_for l inserted [] = 0
  counted_for l inserted (e ∷ events) =
      (if any (str_eq e.stream_message_id) inserted
        then (if str_eq e.enriched.link_id l then 1 else 0)
        else 0)
      + counted_for l inserted events

  entry-link :
      (later : T → T → Bool) (event : EnrichedClickEvent F T) (old : Option (LinkClickCount T))
      → KeyedAt event.link_id old
      → (counted_entry later event old).link_id ≡ event.link_id
  entry-link later event none h = refl
  entry-link later event (some c) h = h

  entry-count :
      (later : T → T → Bool) (event : EnrichedClickEvent F T) (l : String)
      (old : Option (LinkClickCount T))
      → (if str_eq event.link_id l then (counted_entry later event old).count else 0)
        ≡ count_or_zero event.link_id l old + (if str_eq event.link_id l then 1 else 0)
  entry-count later event l none = omega arith
  entry-count later event l (some c) = elim (Bool-cases (str_eq event.link_id l)) [
    | inl same ↦ rw same (omega arith)
    | inr other ↦ rw other (omega arith)
  ]

  module _ (later : T → T → Bool) (inserted : List String) where
    count_event-IsKeyed :
        (e : EnrichedEvent F T) (m : List (String × LinkClickCount T))
        → IsKeyed m
        → IsKeyed (count_event later inserted e m)
    count_event-IsKeyed e m h = elim (Bool-cases (any (str_eq e.stream_message_id) inserted)) [
      | inl new ↦ rw new (
          set-IsKeyed e.enriched.link_id _ m
            (entry-link later e.enriched (get e.enriched.link_id m)
              (get-KeyedAt e.enriched.link_id m h))
            h)
      | inr old ↦ rw old h
    ]

    count_event-clicks :
        (l : String) (e : EnrichedEvent F T) (m : List (String × LinkClickCount T))
        → IsKeyed m
        → clicks_for l (values (count_event later inserted e m))
          ≡ clicks_for l (values m) + counted_for l inserted (e ∷ [])
    count_event-clicks l e m h = elim (Bool-cases (any (str_eq e.stream_message_id) inserted)) [
      | inl new ↦ rw new (
          omega (
            arith,
            clicks_for-set e.enriched.link_id l
                (counted_entry later e.enriched (get e.enriched.link_id m)) m
                (entry-link later e.enriched (get e.enriched.link_id m)
                  (get-KeyedAt e.enriched.link_id m h))
                h,
            entry-count later e.enriched l (get e.enriched.link_id m),
          ))
      | inr old ↦ rw old (omega arith)
    ]

    count_events-clicks :
        (l : String) (events : List (EnrichedEvent F T)) (m : List (String × LinkClickCount T))
        → IsKeyed m
        → clicks_for l (values (count_events later inserted events m))
          ≡ clicks_for l (values m) + counted_for l inserted events
    unfolding count_events
    count_events-clicks l [] m h = omega arith
    count_events-clicks l (e ∷ events) m h = omega (
      arith,
      count_event-clicks l e m h,
      count_events-clicks l events (count_event later inserted e m) (count_event-IsKeyed e m h),
    )

    -- The counts add up to the events whose rows were inserted, for each link.
    pub build-clicks :
        (l : String) (events : List (EnrichedEvent F T))
        → clicks_for l (build_link_click_counts later events inserted)
          ≡ counted_for l inserted events
    build-clicks l events = omega (arith, count_events-clicks l events [] tt)
