-- ===== src/Click/Twice.antt =====
-- Events that come again, in apps/worker/src/workers/analytics-click.worker.ts.
use package.text.Mathlib.Text.{◌==◌ as str_eq}
use text.Mathlib.TextEquality.{eq_iff}
use urlfy_cc.Common.{
  ℕ, ◌+◌, ◌≡◌, refl, true, false, Bool, String, List, [], ◌∷◌, ◌++◌, any, arith, if◌then◌else◌, inl,
  inr, ◌∙◌, sym, ap, append-nil, subst,
}
use urlfy_cc.Common.Effects.{Outcome, returned, threw, pure, Outcome-cases, bind_outcome-returned}
use urlfy_cc.Worker.{Fields}
use urlfy_cc.Click.Enrich.{
  EnrichedClickEvent, EventRow, Enrichers, enrich_click_event, map_enriched_to_row, payload_of,
  get_logical_event_id,
}
use urlfy_cc.Click.{
  LinkClickCount, EnrichedEvent, ClickServices, inserted_ids, row_of, build_link_click_counts,
  run_post_commit_effects, count_inserted, record_click, commit_click, process_message,
  process_enriched, count_rows_inserted, record_batch, update_links,
}
use urlfy_cc.Click.Tally.{counted_for, clicks_for, build-clicks}
use urlfy_cc.Click.Rows.{conflict, fresh_rows, rows_for, rows_for-append, fresh-one, CountsRows}
use urlfy_cc.Click.Once.{insert-links, update-rows, update-clicks}

module _ {D R E F T : Type 0} (enrichers : Enrichers E F T) (services : ClickServices D R E F T)
    (same_time : T → T → Bool) (rows : D → List (EventRow F T)) (has_link : D → String → Bool)
    (clicks : D → String → ℕ) (laws : CountsRows services same_time rows has_link clicks) where
  open services use {insert_events, add_clicks, transaction}
  open laws use {insert-rows, insert-clicks, commits, rolls_back}

  -- Two states that hold the same rows and the same count for each link.
  pub record SameCounts (d d' : D) : Type 0 where
    pub rows_eq : rows d' ≡ rows d
    pub clicks_eq : (l : String) → clicks d' l ≡ clicks d l

  nothing_inserted :
      (enriched : EnrichedClickEvent F T) (out : List (EventRow F T))
      (counts : List (LinkClickCount T)) (d d' : D)
      → out ≡ []
      → count_inserted enrichers services enriched out d ≡ (returned counts, d')
      → (counts ≡ []) × (d' ≡ d)
  nothing_inserted enriched [] counts d d' o e = (cc, ap (λ r. r.1) (sym e))
  nothing_inserted enriched (row ∷ rest) counts d d' o e = cc

  stored_body :
      (enriched : EnrichedClickEvent F T) (id : String) (counts : List (LinkClickCount T))
      (d d' : D)
      → any (conflict same_time (map_enriched_to_row enrichers enriched id)) (rows d) ≡ true
      → record_click enrichers services enriched id d ≡ (returned counts, d')
      → (counts ≡ []) × SameCounts d d'
  stored_body enriched id counts d d' known e =
      let row = map_enriched_to_row enrichers enriched id in
      let (out, d1, inserted, rest) =
        bind_outcome-returned (insert_events (row ∷ []) d)
          (count_inserted enrichers services enriched) counts d' e in
      let step = insert-rows (row ∷ []) out d d1 inserted in
      let one : (if any (conflict same_time row) (rows d) then [] else row ∷ []) ≡ [] =
        rw known refl in
      let empty : out ≡ [] = step.0 ∙ fresh-one enrichers same_time row (rows d) ∙ one in
      let (no_counts, same) = nothing_inserted enriched out counts d1 d' empty rest in
      let links =
        insert-links enrichers services same_time rows has_link clicks laws (row ∷ []) out d d1
          inserted in
      (
        no_counts,
        record {
          rows_eq = ap rows same ∙ step.1 ∙ ap (λ o. rows d ++ o) empty ∙ append-nil (rows d);
          clicks_eq = λ l. ap (λ s. clicks s l) same ∙ links.0 l;
        },
      )

  stored_commit :
      (enriched : EnrichedClickEvent F T) (id : String) (d : D) (r : R)
      → any (conflict same_time (map_enriched_to_row enrichers enriched id)) (rows d) ≡ true
      → SameCounts d
          (commit_click enrichers services
            (transaction (record_click enrichers services enriched id) d)
            r).1.0
        × ((commit_click enrichers services
              (transaction (record_click enrichers services enriched id) d)
              r).1.1
            ≡ r)
  unfolding run_post_commit_effects
  stored_commit enriched id d r known =
      elim (Outcome-cases (transaction (record_click enrichers services enriched id) d)) [
        | inl (counts, d', e) ↦
            let (no_counts, same) =
              stored_body enriched id counts d d' known
                (commits (record_click enrichers services enriched id) d d' counts e) in
            rw e (same, ap (λ c. run_post_commit_effects enrichers services c r) no_counts)
        | inr (x, d', e) ↦
            let same = rolls_back (record_click enrichers services enriched id) d d' x e in
            rw e
              (record { rows_eq = ap rows same; clicks_eq = λ l. ap (λ s. clicks s l) same }, refl)
      ]

  stored_enriched :
      (enriched : Outcome E (EnrichedClickEvent F T)) (event : EnrichedClickEvent F T) (id : String)
      (d : D) (r : R)
      → enriched ≡ returned event
      → any (conflict same_time (map_enriched_to_row enrichers event id)) (rows d) ≡ true
      → SameCounts d (process_enriched enrichers services enriched id (d, r)).1.0
        × ((process_enriched enrichers services enriched id (d, r)).1.1 ≡ r)
  stored_enriched (threw x) event id d r e known = cc
  stored_enriched (returned other) event id d r e known =
      let same : other ≡ event = cc in
      stored_commit other id d r (
        subst
          (λ (o : EnrichedClickEvent F T).
            any (conflict same_time (map_enriched_to_row enrichers o id)) (rows d) ≡ true)
          (sym same) known)

  -- A message that is delivered again after its row was stored, so that its row conflicts with one in
  -- the table, changes neither the rows, nor the count of any link, nor anything in Redis: no pending
  -- click is drained twice, and no cached count is raised. Of the database: an insert skips the rows
  -- that conflict, and a transaction that fails changes nothing.
  pub redelivered-changes_nothing :
      (message_id : String) (fields : Fields) (event : EnrichedClickEvent F T) (d : D) (r : R)
      → enrich_click_event enrichers
          (get_logical_event_id message_id (payload_of fields))
          (payload_of fields)
        ≡ returned event
      → any
          (conflict same_time (
            map_enriched_to_row enrichers event
              (get_logical_event_id message_id (payload_of fields))))
          (rows d)
        ≡ true
      → SameCounts d (process_message enrichers services message_id fields (d, r)).1.0
        × ((process_message enrichers services message_id fields (d, r)).1.1 ≡ r)
  unfolding process_message
  redelivered-changes_nothing message_id fields event d r enriched known =
      stored_enriched _ event (get_logical_event_id message_id (payload_of fields)) d r enriched
        known

  -- Two events of one batch that are the same event.
  pub record IsRepeated (a b : EnrichedEvent F T) (d : D) : Type 0 where
    pub same_id : b.stream_message_id ≡ a.stream_message_id
    pub named : str_eq a.stream_message_id "" ≡ false
    pub same_link : b.enriched.link_id ≡ a.enriched.link_id
    pub conflicts : conflict same_time (row_of enrichers b) (row_of enrichers a) ≡ true
    pub new : any (conflict same_time (row_of enrichers a)) (rows d) ≡ false

  repeated_fresh :
      (a b : EnrichedEvent F T) (d : D)
      → IsRepeated a b d
      → fresh_rows same_time (rows d) (row_of enrichers a ∷ row_of enrichers b ∷ [])
        ≡ row_of enrichers a ∷ []
  unfolding fresh_rows
  repeated_fresh a b d h = rw h.new (rw h.conflicts refl)

  repeated_counted :
      (a b : EnrichedEvent F T) (d : D)
      → IsRepeated a b d
      → counted_for a.enriched.link_id (inserted_ids (row_of enrichers a ∷ [])) (a ∷ b ∷ []) ≡ 2
  repeated_counted a b d h =
      let self : str_eq a.stream_message_id a.stream_message_id ≡ true = (eq_iff _ _).1 refl in
      let self' : str_eq b.stream_message_id a.stream_message_id ≡ true =
        (eq_iff _ _).1 h.same_id in
      let link : str_eq a.enriched.link_id a.enriched.link_id ≡ true = (eq_iff _ _).1 refl in
      let link' : str_eq b.enriched.link_id a.enriched.link_id ≡ true =
        (eq_iff _ _).1 h.same_link in
      rw h.named (rw (self, self', link, link') refl)

  -- Two copies of one new event in one batch, the same id, link and time, are one row and two clicks:
  -- if the batch's transaction commits, the table gains one row of the link, which it has, and the
  -- link's count grows by two. So copies of an event are counted once only in different batches.
  pub repeated-counts_twice :
      (a b : EnrichedEvent F T) (counts : List (LinkClickCount T)) (d d' : D)
      → IsRepeated a b d
      → has_link d a.enriched.link_id ≡ true
      → transaction (record_batch enrichers services (a ∷ b ∷ [])) d ≡ (returned counts, d')
      → (rows_for a.enriched.link_id (rows d') ≡ rows_for a.enriched.link_id (rows d) + 1)
        × (clicks d' a.enriched.link_id ≡ clicks d a.enriched.link_id + 2)
  repeated-counts_twice a b counts d d' h there committed =
      let l = a.enriched.link_id in
      let new = row_of enrichers a ∷ row_of enrichers b ∷ [] in
      let (out, d1, inserted, rest) =
        bind_outcome-returned (insert_events new d)
          (count_rows_inserted enrichers services (a ∷ b ∷ [])) counts d'
          (commits (record_batch enrichers services (a ∷ b ∷ [])) d d' counts committed) in
      let built = build_link_click_counts enrichers.later (a ∷ b ∷ []) (inserted_ids out) in
      let (_, d2, updated, last) =
        bind_outcome-returned (update_links enrichers services built d1) (λ _. pure built) counts d'
          rest in
      let same : d' ≡ d2 = ap (λ r. r.1) (sym last) in
      let step = insert-rows new out d d1 inserted in
      let only : out ≡ row_of enrichers a ∷ [] = step.0 ∙ repeated_fresh a b d h in
      let links =
        insert-links enrichers services same_time rows has_link clicks laws new out d d1 inserted in
      let moved = update-rows enrichers services same_time rows has_link clicks laws built d1 in
      let self : str_eq l l ≡ true = (eq_iff _ _).1 refl in
      let one : rows_for l (row_of enrichers a ∷ []) ≡ 1 = rw self refl in
      let two : clicks_for l built ≡ 2 =
        build-clicks enrichers.later (inserted_ids out) l (a ∷ b ∷ [])
        ∙ ap (λ o. counted_for l (inserted_ids o) (a ∷ b ∷ [])) only
        ∙ repeated_counted a b d h in
      (
        ap (λ s. rows_for l (rows s)) (same ∙ ap (λ r. r.1) (sym updated))
            ∙ ap (rows_for l) (moved.0 ∙ step.1 ∙ ap (λ o. rows d ++ o) only)
            ∙ rows_for-append l (rows d) (row_of enrichers a ∷ [])
            ∙ ap (λ n. rows_for l (rows d) + n) one,
        ap (λ s. clicks s l) same
            ∙ update-clicks enrichers services same_time rows has_link clicks laws built d1 d2 l
                updated (links.1 l ∙ there)
            ∙ omega (arith, links.0 l, two),
      )
