-- ===== src/Route/Reservation.antt =====
-- The pending clicks that `GET` of apps/web/src/app/r/[code]/route.ts reserves and reverts.
use Prim.Native.String.{◌++◌}
use urlfy_cc.Common.{
  ℕ, suc, ◌-◌, ◌≡◌, refl, ◌≢◌, ◌⊎◌, inl, inr, true, Option, some, String, arith, truthy_text,
  or_else, Bool-cases, ap, sym, ◌∙◌,
}
use text.Mathlib.TextEquality.{eq_iff}
use urlfy_cc.Common.Effects.{Outcome, returned, threw, Outcome-cases, bind_outcome}
use urlfy_cc.Redirect.Link.{RedirectResult}
use urlfy_cc.Route.{RouteServices, dispatch_analytics, final_redirect, answer, get_public_base_url}

module _ {W E : Type 0} (services : RouteServices W E) (app_url : Option String)
    (request_id link_id : String) (pending : W → ℕ) where
  open services use {reserve, revert, enqueue, accepts_url}

  -- The counter of the link's pending clicks, while Redis answers.
  pub record CountsPending : Type 0 where
    pub reserve-adds :
        (n : ℕ) (w w' : W)
        → reserve link_id w ≡ (returned (some n), w')
        → pending w' ≡ suc (pending w)
    pub revert-takes : (w : W) → pending (revert link_id w).1 ≡ pending w - 1
    pub enqueue-keeps : (code : String) (w : W) → pending (enqueue code link_id w).1 ≡ pending w

  final-keeps :
      (result : RedirectResult) (w : W)
      → (final_redirect services app_url request_id result w).1 ≡ w
  final-keeps result w =
      elim (Bool-cases (accepts_url (or_else result.url (get_public_base_url app_url ++ "/")))) [
        | inl yes_url ↦ rw yes_url refl
        | inr no_url ↦ rw no_url refl
      ]

  truthy_id : link_id ≢ "" → truthy_text (some link_id) ≡ true
  truthy_id given = ground (arith, eq_iff link_id "")

  rethrown-world :
      (r : Outcome E (Unit {0}) × W) (e : E)
      → (bind_outcome {B = Unit {0}} r (λ _ v. (threw e, v))).1 ≡ r.1
  rethrown-world (returned a, w) e = refl
  rethrown-world (threw x, w) e = refl

  module _ (counts : CountsPending) where
    dispatch-pending :
        (code : String) (w : W)
        → (((enqueue code link_id w).0 ≡ returned tt)
            × (pending (dispatch_analytics services app_url request_id code link_id true w).1
                ≡ pending w))
          ⊎ ((e : E) × ((enqueue code link_id w).0 ≡ threw e)
              × (pending (dispatch_analytics services app_url request_id code link_id true w).1
                  ≡ pending w - 1))
    unfolding dispatch_analytics
    dispatch-pending code w = elim (Outcome-cases (enqueue code link_id w)) [
      | inl (done, w1, e) ↦
          inl (ap (λ r. r.0) e, rw e (ap (λ r. pending r.1) (sym e) ∙ counts.enqueue-keeps code w))
      | inr (x, w1, e) ↦ inr (
        x,
        ap (λ r. r.0) e,
        rw e (
            ap pending (rethrown-world (revert link_id w1) x)
            ∙ counts.revert-takes w1
            ∙ ap (λ r. pending r.1 - 1) (sym e)
            ∙ ap (λ p. p - 1) (counts.enqueue-keeps code w)),
      )
    ]

    answer-world :
        (code : String) (result : RedirectResult) (n : ℕ) (w w1 : W)
        → result.success ≡ true
        → result.link_id ≡ some link_id
        → link_id ≢ ""
        → result.requires_click_reservation ≡ some true
        → reserve link_id w ≡ (returned (some n), w1)
        → (answer services app_url request_id code result w).1
          ≡ (dispatch_analytics services app_url request_id code link_id true w1).1
    unfolding answer dispatch_analytics
    answer-world code result n w w1 ok named given required got =
        rw (ok, named, required, truthy_id given, got) (final-keeps result _)

    -- For a successful resolution that names the link and asks for a reservation, a click that was
    -- reserved stays counted exactly if the event of the redirect was enqueued; if that failed, the
    -- counter is back where it was. A reservation is to add one, a revert to take one, and the queue
    -- to leave the counter alone.
    pub answer-pending :
        (code : String) (result : RedirectResult) (n : ℕ) (w w1 : W)
        → result.success ≡ true
        → result.link_id ≡ some link_id
        → link_id ≢ ""
        → result.requires_click_reservation ≡ some true
        → reserve link_id w ≡ (returned (some n), w1)
        → (((enqueue code link_id w1).0 ≡ returned tt)
            × (pending (answer services app_url request_id code result w).1 ≡ suc (pending w)))
          ⊎ ((e : E) × ((enqueue code link_id w1).0 ≡ threw e)
              × (pending (answer services app_url request_id code result w).1 ≡ pending w))
    answer-pending code result n w w1 ok named given required got =
        rw (answer-world code result n w w1 ok named given required got)
          (ground (arith, dispatch-pending code w1, counts.reserve-adds n w w1 got))
