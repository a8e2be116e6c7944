-- ===== src/Subscription/StoreEvents.antt =====
-- RevenueCat's webhooks (internal/service/revenuecat_service.go) and the rule of one subscription
-- with full access per organization: each saves the effective subscription, or one that Create
-- gives.
use passwall_server.Base.{
  map_outcome, ℕ, Option, none, some, String, Gorm, IsGorm, ◌==◌, Result, ok, err, M, ◌≡◌, refl,
  ◌∙◌, inl, inr, Bool-cases, wrap, lift_step, lift_error_step, require_step,
}
use passwall_server.Subscription.Record.{Subscription, Table, key, rekey, effective_answer}
use passwall_server.Subscription.Service.{Services, create_subscription}
use passwall_server.Subscription.RevenueCat.{
  EventType, initial_purchase, renewal, product_change, cancellation, uncancellation, billing_issue,
  expiration, subscription_paused, subscription_extended, other_event, Event, Resolvers, renewed_at,
  is_not_found_error, handle_initial_purchase, set_renewal, after_payment, pay_then, handle_renewal,
  handle_product_change, unless_missing, handle_cancellation, handle_uncancellation,
  handle_billing_issue, handle_expiration, handle_subscription_paused, handle_subscription_extended,
  handle_event, handle_webhook,
}
use passwall_server.Subscription.Uniqueness.{IsUnique}
use passwall_server.Subscription.Checks.{effective, Effective}
use passwall_server.Subscription.Operations.{create-IsUnique, pays-IsUnique, expire-IsUnique}
use passwall_server.Subscription.Calls.{Current, CarefulEvent}
use passwall_server.Subscription.StoreChanges.{
  renewed_at-Kept, reactivated-Kept, change-IsUnique, same_state-IsUnique, create_success_lem,
  bought-IsUnique,
}

module _ (db : Gorm Subscription) (gorm : IsGorm key rekey db) (services : Services)
    (resolvers : Resolvers) where
  purchase-IsUnique :
      (now : ℕ) (uuid : String) (event : Event) (rows : Table)
      → IsUnique rows
      → IsUnique (handle_initial_purchase db services resolvers now uuid event rows).1
  unfolding handle_initial_purchase
  purchase-IsUnique now uuid event rows u = lift_step IsUnique _ _ rows u λ o _.
      lift_error_step IsUnique _ _ _ rows u λ code _.
        bought-IsUnique db gorm services resolvers (wrap "failed to create subscription")
          event.expiration_time
          (create_subscription db services now uuid o code event.subscription_id none rows)
          (create-IsUnique db gorm services now uuid o code event.subscription_id none rows u)
          (create_success_lem db gorm services resolvers now uuid o code event.subscription_id none
            rows)

  set_renewal-IsUnique :
      (now o : ℕ) (t : Option ℕ) (rows : Table) (r : Result Subscription)
      → effective_answer now (db.find (λ x. x.organization_id == o) rows) ≡ r
      → IsUnique rows
      → IsUnique (set_renewal db services resolvers t r rows).1
  unfolding set_renewal
  set_renewal-IsUnique now o none rows r h u = u
  set_renewal-IsUnique now o (some t) rows (err e) h u = u
  set_renewal-IsUnique now o (some t) rows (ok s) h u =
      same_state-IsUnique db gorm services resolvers rows s _ u
        (effective db gorm services now o rows s h).0 (refl, refl) refl

  after_payment-IsUnique :
      (now : ℕ) (uuid : String) (event : Event) (o : ℕ) (r : Result (Unit {0})) (rows : Table)
      → IsUnique rows
      → IsUnique (after_payment db services resolvers now uuid event o r rows).1
  unfolding after_payment
  after_payment-IsUnique now uuid event o (ok t) rows u =
      set_renewal-IsUnique now o event.expiration_time rows _ refl u
  after_payment-IsUnique now uuid event o (err e) rows u =
      elim (Bool-cases (is_not_found_error e)) [
        | inl t ↦ rw t (purchase-IsUnique now uuid event rows u)
        | inr f ↦ rw f u
      ]

  renewal-IsUnique :
      (now : ℕ) (uuid : String) (event : Event) (rows : Table)
      → IsUnique rows
      → Current db event.subscription_id rows
      → IsUnique (handle_renewal db services resolvers now uuid event rows).1
  unfolding handle_renewal pay_then
  renewal-IsUnique now uuid event rows u c = lift_step IsUnique _ _ rows u λ o _.
      after_payment-IsUnique now uuid event o _ _
        (pays-IsUnique db gorm services now event.subscription_id rows u c)

  product_change-IsUnique :
      (now : ℕ) (event : Event) (rows : Table)
      → IsUnique rows
      → IsUnique (handle_product_change db services resolvers now event rows).1
  unfolding handle_product_change
  product_change-IsUnique now event rows u = lift_step IsUnique _ _ rows u λ o _.
      require_step IsUnique _ _ _ rows u λ _. lift_error_step IsUnique _ _ _ rows u λ code _.
        lift_error_step IsUnique _ _ _ rows u λ s e. lift_error_step IsUnique _ _ _ rows u λ plan _.
          change-IsUnique db gorm services resolvers _ o rows s _ u
            (effective db gorm services now o rows s e)
            (renewed_at-Kept event.expiration_time (record s { plan_id = plan.id }))

  -- A handler that goes on with the effective subscription, or ends.
  found-IsUnique :
      (now o : ℕ) (rows : Table) (f : Subscription → M Table (Unit {0})) (r : Result Subscription)
      → effective_answer now (db.find (λ x. x.organization_id == o) rows) ≡ r
      → IsUnique rows
      → ((s : Subscription) → Effective o rows s → IsUnique (f s rows).1)
      → IsUnique (unless_missing db services resolvers r f rows).1
  unfolding unless_missing
  found-IsUnique now o rows f (ok s) h u k = k s (effective db gorm services now o rows s h)
  found-IsUnique now o rows f (err e) h u k = elim (Bool-cases (is_not_found_error e)) [
    | inl t ↦ rw t u
    | inr n ↦ rw n u
  ]

  cancellation-IsUnique :
      (now : ℕ) (event : Event) (rows : Table)
      → IsUnique rows
      → IsUnique (handle_cancellation db services resolvers now event rows).1
  unfolding handle_cancellation
  cancellation-IsUnique now event rows u = lift_step IsUnique _ _ rows u λ o _.
      found-IsUnique now o rows _ _ refl u λ s e.
        change-IsUnique db gorm services resolvers _ o rows s _ u e
          (renewed_at-Kept event.expiration_time _)

  uncancellation-IsUnique :
      (now : ℕ) (event : Event) (rows : Table)
      → IsUnique rows
      → IsUnique (handle_uncancellation db services resolvers now event rows).1
  unfolding handle_uncancellation
  uncancellation-IsUnique now event rows u = lift_step IsUnique _ _ rows u λ o _.
      lift_error_step IsUnique _ _ _ rows u λ s e.
        change-IsUnique db gorm services resolvers _ o rows s _ u
          (effective db gorm services now o rows s e) (renewed_at-Kept event.expiration_time _)

  billing_issue-IsUnique :
      (now : ℕ) (event : Event) (rows : Table)
      → IsUnique rows
      → IsUnique (handle_billing_issue db services resolvers now event rows).1
  unfolding handle_billing_issue
  billing_issue-IsUnique now event rows u = lift_step IsUnique _ _ rows u λ o _.
      found-IsUnique now o rows _ _ refl u
        λ s e. change-IsUnique db gorm services resolvers _ o rows s _ u e (refl, refl)

  expiration-IsUnique :
      (now : ℕ) (event : Event) (rows : Table)
      → IsUnique rows
      → IsUnique (handle_expiration db services resolvers now event rows).1
  unfolding handle_expiration map_outcome
  expiration-IsUnique now event rows u = lift_step IsUnique _ _ rows u λ o _.
      found-IsUnique now o rows _ _ refl u λ s e. expire-IsUnique db gorm services now s.id rows u

  paused-IsUnique :
      (now : ℕ) (event : Event) (rows : Table)
      → IsUnique rows
      → IsUnique (handle_subscription_paused db services resolvers now event rows).1
  unfolding handle_subscription_paused
  paused-IsUnique now event rows u = lift_step IsUnique _ _ rows u λ o _.
      lift_error_step IsUnique _ _ _ rows u λ s e.
        change-IsUnique db gorm services resolvers _ o rows s _ u
          (effective db gorm services now o rows s e) (renewed_at-Kept event.auto_resume_time _)

  extended-IsUnique :
      (now : ℕ) (event : Event) (rows : Table)
      → IsUnique rows
      → IsUnique (handle_subscription_extended db services resolvers now event rows).1
  unfolding handle_subscription_extended
  extended-IsUnique now event rows u = lift_step IsUnique _ _ rows u λ o _.
      lift_error_step IsUnique _ _ _ rows u λ s e.
        let (i1, o1) = renewed_at-Kept event.expiration_time s in
        let (i2, o2) = reactivated-Kept now (renewed_at event.expiration_time s) in
        change-IsUnique db gorm services resolvers _ o rows s _ u
          (effective db gorm services now o rows s e) (i2 ∙ i1, o2 ∙ o1)

  handle_event-IsUnique :
      (type : EventType) (now : ℕ) (uuid : String) (event : Event) (rows : Table)
      → IsUnique rows
      → CarefulEvent db type event.subscription_id rows
      → IsUnique (handle_event db services resolvers type now uuid event rows).1
  unfolding handle_event
  handle_event-IsUnique initial_purchase now uuid event rows u c =
      purchase-IsUnique now uuid event rows u
  handle_event-IsUnique renewal now uuid event rows u c = renewal-IsUnique now uuid event rows u c
  handle_event-IsUnique product_change now uuid event rows u c =
      product_change-IsUnique now event rows u
  handle_event-IsUnique cancellation now uuid event rows u c =
      cancellation-IsUnique now event rows u
  handle_event-IsUnique uncancellation now uuid event rows u c =
      uncancellation-IsUnique now event rows u
  handle_event-IsUnique billing_issue now uuid event rows u c =
      billing_issue-IsUnique now event rows u
  handle_event-IsUnique expiration now uuid event rows u c = expiration-IsUnique now event rows u
  handle_event-IsUnique subscription_paused now uuid event rows u c =
      paused-IsUnique now event rows u
  handle_event-IsUnique subscription_extended now uuid event rows u c =
      extended-IsUnique now event rows u
  handle_event-IsUnique other_event now uuid event rows u c = u

  pub handle_webhook-IsUnique :
      (now : ℕ) (uuid : String) (event : Event) (rows : Table)
      → IsUnique rows
      → CarefulEvent db event.type event.subscription_id rows
      → IsUnique (handle_webhook db services resolvers now uuid event rows).1
  unfolding handle_webhook
  handle_webhook-IsUnique now uuid event rows u c =
      handle_event-IsUnique event.type now uuid event rows u c
