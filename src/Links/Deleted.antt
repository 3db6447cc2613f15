-- ===== src/Links/Deleted.antt =====
-- What the redirect path reads after apps/api/src/server/modules/links/link-lifecycle.service.ts has
-- deleted, restored or switched a link.
use urlfy_cc.Common.{
  ◌≡◌, ◌≢◌, sym, refl, ap, ◌∙◌, subst, Bool, true, false, not, Option, none, some, String, inl, inr,
  ◌⊎◌,
}
use urlfy_cc.Common.Effects.{
  Outcome, returned, threw, Eff, pure, bind_outcome, bind_outcome-returned,
}
use urlfy_cc.Redirect.Fetcher.{LinkState}
use urlfy_cc.Cache.{CacheRedis, Reason, deleted, get_link_state, invalidate_link_and_qr}
use urlfy_cc.Cache.Forget.{CacheLaws}
use urlfy_cc.Cache.States.{expected, MarkFails, no_mark, invalidated-reads}
use urlfy_cc.Links.Types.{Link}
use urlfy_cc.Links.Lifecycle.{
  LifecycleServices, found_or_throw, get_owned_link, delete_now, soft_delete_link,
  update_and_invalidate, restore_row, restore_link, toggle_link_active,
}

module _ {W E T : Type 0} (services : LifecycleServices W E T) (redis : CacheRedis W E) where
  open services use {select_owned, update_restored, update_active, create_link_app_error}

  owned_link :
      (r : Outcome E (Option (Link T)) × W) (link : Link T) (w1 : W)
      → bind_outcome r (found_or_throw services redis) ≡ (returned link, w1)
      → r ≡ (returned (some link), w1)
  owned_link (returned (some l), v) link w1 e = cc
  owned_link (returned none, v) link w1 e = cc
  owned_link (threw x, v) link w1 e = cc

  row_injective :
      {a b : Link T} {u v : W}
      → ◌≡◌ {A = Outcome E (Option (Link T)) × W} (returned (some a), u) (returned (some b), v)
      → a ≡ b
  row_injective e = cc

  found_restores :
      (id user_id : String) (link : Link T) (w v w1 : W) (row : Option (Link T))
      → select_owned id user_id true w ≡ (returned (some link), v)
      → restore_link services redis id user_id w ≡ (returned row, w1)
      → restore_row services redis id link link.deleted_at v ≡ (returned row, w1)
  unfolding restore_link
  found_restores id user_id link w v w1 row found e =
      subst
        (λ r.
          bind_outcome (bind_outcome r (found_or_throw services redis))
            (λ l. restore_row services redis id l l.deleted_at)
          ≡ (returned row, w1))
        found e

  found_toggles :
      (id user_id : String) (link : Link T) (w v w1 : W) (row : Option (Link T))
      → select_owned id user_id false w ≡ (returned (some link), v)
      → toggle_link_active services redis id user_id w ≡ (returned row, w1)
      → update_and_invalidate services redis link (update_active id (not link.new.is_active)) v
        ≡ (returned row, w1)
  unfolding toggle_link_active
  found_toggles id user_id link w v w1 row found e =
      subst
        (λ r.
          bind_outcome (bind_outcome r (found_or_throw services redis))
            (λ l. update_and_invalidate services redis l (update_active id (not l.new.is_active)))
          ≡ (returned row, w1))
        found e

  module _ (value : String → W → Option String) (laws : CacheLaws redis value) where
    -- After a reason to invalidate the code, the next state that is read is that of the reason,
    -- unless the key of the reason could not be written.
    abbrev pub ReadsAs : Link T → Option Reason → W → Type 0
    ReadsAs link reason w1 =
        (refresh : Bool) (st : LinkState) (w2 : W)
        → get_link_state redis refresh link.new.short_code w1 ≡ (returned st, w2)
        → (st ≡ expected reason) ⊎ MarkFails redis value laws link.new.short_code reason

    invalidated-ReadsAs :
        (link : Link T) (reason : Option Reason) (w w1 : W)
        → invalidate_link_and_qr redis link.new.short_code reason w ≡ (returned tt, w1)
        → ReadsAs link reason w1
    invalidated-ReadsAs link reason w w1 e refresh st w2 read =
        invalidated-reads redis value laws link.new.short_code reason refresh w w1 w2 st e read

    soft_deleted-ReadsAs :
        (id user_id : String) (link : Link T) (w v w1 : W)
        → select_owned id user_id false w ≡ (returned (some link), v)
        → soft_delete_link services redis id user_id w ≡ (returned tt, w1)
        → ReadsAs link (some deleted) w1
    unfolding soft_delete_link
    soft_deleted-ReadsAs id user_id link w v w1 found e =
        let (same, u, got, rest) =
          bind_outcome-returned (get_owned_link services redis id user_id false w) _ tt w1 e in
        let owned = owned_link (select_owned id user_id false w) same u got in
        let (_, u1, _, last) =
          bind_outcome-returned (delete_now services redis id u) _ tt w1 rest in
        subst (λ l. ReadsAs l (some deleted) w1) (row_injective (sym owned ∙ found))
          (invalidated-ReadsAs same (some deleted) u1 w1 last)

    -- Once a user deleted a link that was found as one of that user, the cache tells the redirect
    -- path that there is no such link, and it has no copy of the link, unless the key that marks it
    -- could not be written. All commands but that one are answered.
    pub soft_deleted-reads :
        (id user_id : String) (link : Link T) (refresh : Bool) (st : LinkState) (w v w1 w2 : W)
        → select_owned id user_id false w ≡ (returned (some link), v)
        → soft_delete_link services redis id user_id w ≡ (returned tt, w1)
        → get_link_state redis refresh link.new.short_code w1 ≡ (returned st, w2)
        → (st ≡ expected (some deleted))
          ⊎ MarkFails redis value laws link.new.short_code (some deleted)
    soft_deleted-reads id user_id link refresh st w v w1 w2 found e read =
        soft_deleted-ReadsAs id user_id link w v w1 found e refresh st w2 read

    updated-ReadsAs :
        (link : Link T) (update : Eff W E (Option (Link T))) (w w1 : W) (row : Option (Link T))
        → update_and_invalidate services redis link update w ≡ (returned row, w1)
        → ((update w).0 ≡ returned row) × ReadsAs link none w1
    updated-ReadsAs link update w w1 row e =
        let (new, v, got, rest) = bind_outcome-returned (update w) _ row w1 e in
        let (t, u, gone, last) =
          bind_outcome-returned (invalidate_link_and_qr redis link.new.short_code none v)
            (λ _. pure new) row w1 rest in
        (
          ap (λ r. r.0) got ∙ ap (λ r. r.0) last,
          subst (ReadsAs link none) (ap (λ r. r.1) last) (invalidated-ReadsAs link none v u gone),
        )

    row_restored :
        (id : String) (link : Link T) (refresh : Bool) (st : LinkState) (v w1 w2 : W)
        (row : Option (Link T)) (at : Option T)
        → restore_row services redis id link at v ≡ (returned row, w1)
        → get_link_state redis refresh link.new.short_code w1 ≡ (returned st, w2)
        → ((at ≡ none) × (row ≡ some link) × (w1 ≡ v))
          ⊎ ((at ≢ none) × ((update_restored id v).0 ≡ returned row) × (st ≡ expected none))
    row_restored id link refresh st v w1 w2 row none e read = inl (refl, cc, sym (ap (λ r. r.1) e))
    row_restored id link refresh st v w1 w2 row (some at) e read =
        let (updated, reads) = updated-ReadsAs link (update_restored id) v w1 row e in
        inr (
          λ (there : some at ≡ none). cc,
          updated,
          no_mark redis value laws link.new.short_code st (reads refresh st w2 read),
        )

    -- A user restores a link that was found as one of that user, deleted or not. One that was not
    -- deleted is answered as it is, and nothing is done. For one that was, the row of the update is
    -- answered, and the cache then holds neither a copy of it nor a mark. All commands are answered.
    pub restored-reads :
        (id user_id : String) (link : Link T) (refresh : Bool) (st : LinkState) (w v w1 w2 : W)
        (row : Option (Link T))
        → select_owned id user_id true w ≡ (returned (some link), v)
        → restore_link services redis id user_id w ≡ (returned row, w1)
        → get_link_state redis refresh link.new.short_code w1 ≡ (returned st, w2)
        → ((link.deleted_at ≡ none) × (row ≡ some link) × (w1 ≡ v))
          ⊎ ((link.deleted_at ≢ none)
              × ((update_restored id v).0 ≡ returned row)
              × (st ≡ expected none))
    unfolding restore_link
    restored-reads id user_id link refresh st w v w1 w2 row found e read =
        row_restored id link refresh st v w1 w2 row link.deleted_at
          (found_restores id user_id link w v w1 row found e) read

    -- Once a user switched a link that was found as one of that user, its row was updated to the other
    -- state, and the cache then holds neither a copy of it nor a mark. All commands are answered.
    pub toggled-reads :
        (id user_id : String) (link : Link T) (refresh : Bool) (st : LinkState) (w v w1 w2 : W)
        (row : Option (Link T))
        → select_owned id user_id false w ≡ (returned (some link), v)
        → toggle_link_active services redis id user_id w ≡ (returned row, w1)
        → get_link_state redis refresh link.new.short_code w1 ≡ (returned st, w2)
        → ((update_active id (not link.new.is_active) v).0 ≡ returned row) × (st ≡ expected none)
    toggled-reads id user_id link refresh st w v w1 w2 row found e read =
        let (updated, reads) =
          updated-ReadsAs link (update_active id (not link.new.is_active)) v w1 row
            (found_toggles id user_id link w v w1 row found e) in
        (updated, no_mark redis value laws link.new.short_code st (reads refresh st w2 read))
