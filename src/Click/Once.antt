-- ===== src/Click/Once.antt =====
-- The worker of apps/worker/src/workers/analytics-click.worker.ts counts each event once.
use urlfy_cc.Common.{
  ℕ, ◌+◌, ◌≡◌, refl, true, false, Bool, String, List, [], ◌∷◌, ◌++◌, map, any, arith, if◌then◌else◌,
  Bool-cases, inl, inr, ◌∙◌, sym, ap, leb, length, append-nil, append_assoc, subst,
}
use urlfy_cc.Common.Effects.{
  Outcome, returned, threw, Eff, pure, Outcome-cases, bind_outcome-returned,
}
use urlfy_cc.Worker
use urlfy_cc.Worker.{Fields, Message, WorkerConfig, WorkerServices}
use urlfy_cc.Click.Enrich.{EnrichedClickEvent, EventRow, Enrichers, map_enriched_to_row}
use urlfy_cc.Click.{
  LinkClickCount, EnrichedEvent, ClickServices, inserted_ids, one_click, row_of, enrich_all,
  build_link_click_counts, count_inserted, record_click, commit_click, process_enriched,
  process_message, update_links, count_rows_inserted, record_batch, commit_batch, process_events,
  process_messages,
}
use urlfy_cc.Click.Tally.{counted_for, clicks_for, build-clicks}
use urlfy_cc.Click.Rows.{
  conflict, rows_for, rows_for-append, DistinctIds, counted-fresh, fresh-one, CountsRows,
}

module _ {D R E F T : Type 0} (enrichers : Enrichers E F T) (services : ClickServices D R E F T)
    (same_time : T → T → Bool) (rows : D → List (EventRow F T)) (has_link : D → String → Bool)
    (clicks : D → String → ℕ) where
  open services use {insert_events, add_clicks, transaction}

  -- From one state of the database to the next, rows are added at the end, and the count of each link
  -- that there is grows by as many as its new rows.
  abbrev pub CountedOnce : D → D → Type 0
  CountedOnce d d' =
      (new : List (EventRow F T)) × (rows d' ≡ rows d ++ new)
      × ((l : String) → has_link d' l ≡ has_link d l)
      × ((l : String) → has_link d l ≡ true → clicks d' l ≡ clicks d l + rows_for l new)

  CountedOnce-refl : (d : D) → CountedOnce d d
  CountedOnce-refl d = ([], sym (append-nil (rows d)), λ l. refl, λ l h. omega arith)

  CountedOnce-trans : (c d e : D) → CountedOnce c d → CountedOnce d e → CountedOnce c e
  CountedOnce-trans c d e (xs, p, links, count) (ys, q, links', count') = (
    xs ++ ys,
    q ∙ ap (λ r. r ++ ys) p ∙ append_assoc (rows c) xs ys,
    λ l. links' l ∙ links l,
    λ l h. omega (arith, count l h, count' l (links l ∙ h), rows_for-append l xs ys),
  )

  module _ (laws : CountsRows services same_time rows has_link clicks) where
    open laws use {insert-rows, insert-clicks, add-clicks, add-rows, commits, rolls_back}

    pub update-rows :
        (counts : List (LinkClickCount T)) (d : D)
        → (rows (update_links enrichers services counts d).1 ≡ rows d)
          × ((l : String) → has_link (update_links enrichers services counts d).1 l ≡ has_link d l)
    unfolding update_links
    update-rows [] d = (refl, λ l. refl)
    update-rows (c ∷ counts) d =
        let step = add-rows c.link_id c.count c.last_clicked_at d in
        elim (Outcome-cases (add_clicks c.link_id c.count c.last_clicked_at d)) [
          | inl (_, d1, e) ↦
              let rest = update-rows counts d1 in
              let there : d1 ≡ (add_clicks c.link_id c.count c.last_clicked_at d).1 =
                ap (λ r. r.1) (sym e) in
              rw e (
                rest.0 ∙ ap rows there ∙ step.0,
                λ l. rest.1 l ∙ ap (λ s. has_link s l) there ∙ step.1 l,
              )
          | inr (x, d1, e) ↦
              let there : d1 ≡ (add_clicks c.link_id c.count c.last_clicked_at d).1 =
                ap (λ r. r.1) (sym e) in
              rw e (ap rows there ∙ step.0, λ l. ap (λ s. has_link s l) there ∙ step.1 l)
        ]

    pub update-clicks :
        (counts : List (LinkClickCount T)) (d d' : D) (l : String)
        → update_links enrichers services counts d ≡ (returned tt, d')
        → has_link d l ≡ true
        → clicks d' l ≡ clicks d l + clicks_for l counts
    unfolding update_links
    update-clicks [] d d' l e h = rw (ap (λ r. clicks r.1 l) (sym e)) (omega arith)
    update-clicks (c ∷ counts) d d' l e h =
        let (_, d1, first, rest) =
          bind_outcome-returned (add_clicks c.link_id c.count c.last_clicked_at d)
            (λ _. update_links enrichers services counts) tt d' e in
        let there : d1 ≡ (add_clicks c.link_id c.count c.last_clicked_at d).1 =
          ap (λ r. r.1) (sym first) in
        omega (
          arith,
          add-clicks c.link_id c.count c.last_clicked_at d d1 l first h,
          update-clicks counts d1 d' l rest (
              ap (λ s. has_link s l) there
              ∙ (add-rows c.link_id c.count c.last_clicked_at d).1 l
              ∙ h),
        )

    pub insert-links :
        (new out : List (EventRow F T)) (d d' : D)
        → insert_events new d ≡ (returned out, d')
        → ((l : String) → clicks d' l ≡ clicks d l) × ((l : String) → has_link d' l ≡ has_link d l)
    insert-links new out d d' e =
        let there : d' ≡ (insert_events new d).1 = ap (λ r. r.1) (sym e) in
        (
          λ l. ap (λ s. clicks s l) there ∙ (insert-clicks new d l).0,
          λ l. ap (λ s. has_link s l) there ∙ (insert-clicks new d l).1,
        )

    -- An insert and the updates that count its rows.
    insert_then_update :
        (new out : List (EventRow F T)) (counts : List (LinkClickCount T)) (d d1 d' : D)
        → insert_events new d ≡ (returned out, d1)
        → update_links enrichers services counts d1 ≡ (returned tt, d')
        → ((l : String) → clicks_for l counts ≡ rows_for l out)
        → CountedOnce d d'
    insert_then_update new out counts d d1 d' inserted updated same =
        let there : d' ≡ (update_links enrichers services counts d1).1 =
          ap (λ r. r.1) (sym updated) in
        let links1 = (insert-links new out d d1 inserted).1 in
        (
          out,
          ap rows there ∙ (update-rows counts d1).0 ∙ (insert-rows new out d d1 inserted).1,
          λ l. ap (λ s. has_link s l) there ∙ (update-rows counts d1).1 l ∙ links1 l,
          λ l h. omega (
            arith,
            update-clicks counts d1 d' l updated (links1 l ∙ h),
            (insert-links new out d d1 inserted).0 l,
            same l,
          ),
        )

    batch-CountedOnce :
        (events : List (EnrichedEvent F T)) (counts : List (LinkClickCount T)) (d d' : D)
        → DistinctIds events
        → record_batch enrichers services events d ≡ (returned counts, d')
        → CountedOnce d d'
    batch-CountedOnce events counts d d' distinct e =
        let (out, d1, inserted, rest) =
          bind_outcome-returned (insert_events (map (row_of enrichers) events) d)
            (count_rows_inserted enrichers services events) counts d' e in
        let built = build_link_click_counts enrichers.later events (inserted_ids out) in
        let (_, d2, updated, last) =
          bind_outcome-returned (update_links enrichers services built d1) (λ _. pure built) counts
            d' rest in
        let same : d2 ≡ d' = ap (λ r. r.1) last in
        insert_then_update (map (row_of enrichers) events) out built d d1 d' inserted
          (subst (λ s. update_links enrichers services built d1 ≡ (returned tt, s)) same updated)
          (λ l.
            build-clicks enrichers.later (inserted_ids out) l events
            ∙ subst (λ o. counted_for l (inserted_ids o) events ≡ rows_for l o)
                (sym (insert-rows (map (row_of enrichers) events) out d d1 inserted).0)
                (counted-fresh enrichers same_time l (rows d) events distinct))

    transaction-CountedOnce :
        (m : Eff D E (List (LinkClickCount T))) (d : D)
        → ((counts : List (LinkClickCount T)) (d' : D)
            → m d ≡ (returned counts, d')
            → CountedOnce d d')
        → CountedOnce d (transaction m d).1
    transaction-CountedOnce m d body = elim (Outcome-cases (transaction m d)) [
      | inl (counts, d', e) ↦ rw e (body counts d' (commits m d d' counts e))
      | inr (x, d', e) ↦
          rw e (subst (CountedOnce d) (sym (rolls_back m d d' x e)) (CountedOnce-refl d))
    ]

    -- What one event's transaction counts is what a batch of one would.
    inserted_update :
        (enriched : EnrichedClickEvent F T) (id : String) (out : List (EventRow F T)) (known : Bool)
        (counts : List (LinkClickCount T)) (d d' : D)
        → out ≡ (if known then [] else map_enriched_to_row enrichers enriched id ∷ [])
        → count_inserted enrichers services enriched out d ≡ (returned counts, d')
        → (update_links enrichers services counts d ≡ (returned tt, d'))
          × ((l : String) → clicks_for l counts ≡ rows_for l out)
    unfolding update_links
    inserted_update enriched id [] known counts d d' o e =
        let none_counted : counts ≡ [] = cc in
        let same : d ≡ d' = ap (λ r. r.1) e in
        rw none_counted (ap (λ s. (returned tt, s)) same, λ l. refl)
    inserted_update enriched id (row ∷ rest) true counts d d' o e = cc
    inserted_update enriched id (row ∷ rest) false counts d d' o e =
        let (_, d1, added, last) =
          bind_outcome-returned (add_clicks enriched.link_id 1 enriched.timestamp d)
            (λ _. pure (one_click enriched ∷ [])) counts d' e in
        let one : counts ≡ one_click enriched ∷ [] = cc in
        let same : d1 ≡ d' = ap (λ r. r.1) last in
        rw one (rw (added, same) refl, λ l. ap (rows_for l) (sym o))

    click-CountedOnce :
        (enriched : EnrichedClickEvent F T) (id : String) (counts : List (LinkClickCount T))
        (d d' : D)
        → record_click enrichers services enriched id d ≡ (returned counts, d')
        → CountedOnce d d'
    click-CountedOnce enriched id counts d d' e =
        let row = map_enriched_to_row enrichers enriched id in
        let (out, d1, inserted, rest) =
          bind_outcome-returned (insert_events (row ∷ []) d)
            (count_inserted enrichers services enriched) counts d' e in
        let (updated, same) =
          inserted_update enriched id out (any (conflict same_time row) (rows d)) counts d1 d'
            ((insert-rows (row ∷ []) out d d1 inserted).0
              ∙ fresh-one enrichers same_time row (rows d))
            rest in
        insert_then_update (row ∷ []) out counts d d1 d' inserted updated same

    commit_click-db :
        (t : Outcome E (List (LinkClickCount T)) × D) (r : R)
        → (commit_click enrichers services t r).1.0 ≡ t.1
    commit_click-db (returned counts, d) r = refl
    commit_click-db (threw e, d) r = refl

    enriched-CountedOnce :
        (enriched : Outcome E (EnrichedClickEvent F T)) (id : String) (d : D) (r : R)
        → CountedOnce d (process_enriched enrichers services enriched id (d, r)).1.0
    enriched-CountedOnce (threw e) id d r = CountedOnce-refl d
    enriched-CountedOnce (returned enriched) id d r =
        subst (CountedOnce d)
          (sym (commit_click-db (transaction (record_click enrichers services enriched id) d) r))
          (transaction-CountedOnce (record_click enrichers services enriched id) d
            (λ counts d' e. click-CountedOnce enriched id counts d d' e))

    message-CountedOnce :
        (id : String) (fields : Fields) (w : D × R)
        → CountedOnce w.0 (process_message enrichers services id fields w).1.0
    unfolding process_message
    message-CountedOnce id fields (d, r) = enriched-CountedOnce _ _ d r

    module _ (base : WorkerServices (D × R) E) (config : WorkerConfig) where
      abbrev one_by_one : WorkerServices (D × R) E
      one_by_one = record base { process_message = process_message enrichers services }

      singly-CountedOnce :
          (ms : List Message) (w : D × R)
          → CountedOnce w.0 (Worker.process_messages one_by_one config ms w).1.0
      unfolding Worker.process_messages
      singly-CountedOnce [] w = CountedOnce-refl w.0
      singly-CountedOnce (m ∷ ms) w =
          let w1 = (process_message enrichers services m.id m.fields w).1 in
          CountedOnce-trans w.0 w1.0 _ (message-CountedOnce m.id m.fields w)
            (singly-CountedOnce ms w1)

      commit_batch-db :
          (t : Outcome E (List (LinkClickCount T)) × D) (events : List (EnrichedEvent F T))
          (failed : List Message) (r : R)
          → (commit_batch enrichers services t events failed r).1.0 ≡ t.1
      commit_batch-db (returned counts, d) events failed r = refl
      commit_batch-db (threw e, d) events failed r = refl

      events-CountedOnce :
          (sorted : List (EnrichedEvent F T) × List Message) (w : D × R)
          → DistinctIds sorted.0
          → CountedOnce w.0 (process_events enrichers services sorted w).1.0
      events-CountedOnce ([], failed) w distinct = CountedOnce-refl w.0
      events-CountedOnce (event ∷ events, failed) (d, r) distinct =
          subst (CountedOnce d)
            (sym (
              commit_batch-db (transaction (record_batch enrichers services (event ∷ events)) d)
                (event ∷ events) failed r))
            (transaction-CountedOnce (record_batch enrichers services (event ∷ events)) d
              (λ counts d' e. batch-CountedOnce (event ∷ events) counts d d' distinct e))

      -- Whatever fails, a batch whose events carry distinct ids, none of them empty, adds rows for
      -- events at the end of the table, and the clicks of each link that there is grow by as many as
      -- its new rows. Of the database: an insert skips the rows that conflict and returns the others, an update adds to
      -- one link, a transaction that fails changes nothing.
      pub process_messages-CountedOnce :
          (messages : List Message) (w : D × R)
          → DistinctIds (enrich_all enrichers messages).0
          → CountedOnce w.0 (process_messages enrichers services base config messages w).1.0
      unfolding process_messages
      process_messages-CountedOnce messages w distinct =
          elim (Bool-cases (leb (length messages) 1)) [
            | inl few ↦ rw few (singly-CountedOnce messages w)
            | inr many ↦ rw many (events-CountedOnce (enrich_all enrichers messages) w distinct)
          ]
