-- ===== src/Subscription/RevenueCat.antt =====
-- What RevenueCat's webhooks do to subscriptions (internal/service/revenuecat_service.go). The
-- event is parsed and its signature checked before; the personal organization of the user that it
-- names and the plan code of a product are arguments. Logs are left out. The error texts leave out
-- the values that they format (`ErrNotFound` of the repositories has the text of gorm's own), and
-- an error of the database (`failure`) is taken to have a text of its own.
use passwall_server.Base.{
  ℕ, Option, none, some, String, Bool, true, false, M, Gorm, str_eq, ◌==◌, ◌&&◌, ◌||◌, not,
  if◌then◌else◌, Error, message, wrap, record_not_found, not_found, Result, ok, err, ◌>>=◌, ◌>>◌,
  pure, require, lift, on_error, logged,
}
use passwall_server.Subscription.Record.{
  canceled, active, past_due, Subscription, Table, eq_canceled, eq_expired, effective_answer,
  get_by_organization_id,
}
use passwall_server.Subscription.Service.{
  Services, create_subscription, update_subscription, handle_payment_success, expire_subscription,
}

pub data EventType : Type 0 where
  initial_purchase renewal product_change cancellation uncancellation billing_issue expiration
        subscription_paused subscription_extended other_event :
      EventType

-- What the handlers read of an event; `subscription_id` is "rc_", the store and the transaction.
pub record Event : Type 0 where
  pub type : EventType
  pub app_user_id : String
  pub subscription_id : String
  pub product_id : String
  pub new_product_id : Option String
  pub expiration_time : Option ℕ
  pub grace_period_time : Option ℕ
  pub auto_resume_time : Option ℕ

pub record Resolvers : Type 0 where
  pub resolve_user_and_org : String → Result ℕ
  pub get_plan_code : String → Result String

abbrev is_record_text : Error → Bool
is_record_text not_found = true
is_record_text record_not_found = true
is_record_text (message m) = str_eq m "record not found"
is_record_text _ = false

-- The error's text is one of three.
abbrev pub is_not_found_error : Error → Bool
is_not_found_error not_found = true
is_not_found_error record_not_found = true
is_not_found_error (message m) =
    str_eq m "record not found"
    || (str_eq m "subscription not found"
        || str_eq m "failed to get subscription: record not found")
is_not_found_error (wrap s e) = str_eq s "failed to get subscription" && is_record_text e
is_not_found_error _ = false

-- `if t := event.GetExpirationTime(); t != nil { sub.RenewAt = t }`.
abbrev pub renewed_at : Option ℕ → Subscription → Subscription
renewed_at none s = s
renewed_at (some t) s = record s { renew_at = some t }

abbrev pub grace_until : Option ℕ → ℕ → ℕ
grace_until (some t) default = t
grace_until none default = default

-- An extension reactivates a subscription that has ended.
abbrev pub reactivated : ℕ → Subscription → Subscription
reactivated now s =
    if eq_expired s.state || eq_canceled s.state
    then record s { state = active; started_at = some now; cancel_at = none; ended_at = none }
    else s

abbrev pub product_or_empty : Option String → String
product_or_empty none = ""
product_or_empty (some t) = t

abbrev unknown_product : Error
unknown_product = message "unknown_revenuecat_product"

module _ (db : Gorm Subscription) (services : Services) (resolvers : Resolvers) where
  open services use {plan_by_code, calendar}
  open resolvers use {resolve_user_and_org, get_plan_code}

  unfoldable pub set_expiration : Option ℕ → Subscription → M Table (Unit {0})
  set_expiration none sub = pure tt
  set_expiration (some t) sub =
      logged (update_subscription db services (record sub { renew_at = some t }))

  unfoldable pub handle_initial_purchase : ℕ → String → Event → M Table (Unit {0})
  handle_initial_purchase now uuid event = do
    org_id ← lift (resolve_user_and_org event.app_user_id)
    plan_code ← on_error (λ _. unknown_product) (lift (get_plan_code event.product_id))
    sub ←
        on_error (wrap "failed to create subscription")
          (create_subscription db services now uuid org_id plan_code event.subscription_id none)
    set_expiration event.expiration_time sub

  unfoldable pub set_renewal : Option ℕ → Result Subscription → M Table (Unit {0})
  set_renewal none answer = pure tt
  set_renewal (some t) (err e) = pure tt
  set_renewal (some t) (ok sub) = logged (
      update_subscription db services
        (record sub { renew_at = some t; grace_period_ends_at = none }))

  -- A payment for a subscription that is not there is a first purchase that arrives late.
  unfoldable pub after_payment : ℕ → String → Event → ℕ → Result (Unit {0}) → M Table (Unit {0})
  after_payment now uuid event org_id (ok _) rows =
      set_renewal event.expiration_time
        (effective_answer now (db.find (λ s. s.organization_id == org_id) rows)) rows
  after_payment now uuid event org_id (err e) rows =
      if is_not_found_error e then handle_initial_purchase now uuid event rows else (err e, rows)

  unfoldable pub pay_then : ℕ → String → Event → ℕ → M Table (Unit {0})
  pay_then now uuid event org_id rows =
      let (answer, rows') = handle_payment_success db services now event.subscription_id rows in
      after_payment now uuid event org_id answer rows'

  unfoldable pub handle_renewal : ℕ → String → Event → M Table (Unit {0})
  handle_renewal now uuid event = do
    org_id ← lift (resolve_user_and_org event.app_user_id)
    pay_then now uuid event org_id

  unfoldable pub handle_product_change : ℕ → Event → M Table (Unit {0})
  handle_product_change now event = do
    org_id ← lift (resolve_user_and_org event.app_user_id)
    require (not (str_eq (product_or_empty event.new_product_id) ""))
        (message "missing new_product_id in product change event")
    plan_code ←
        on_error (λ _. unknown_product)
          (lift (get_plan_code (product_or_empty event.new_product_id)))
    sub ← on_error (wrap "failed to get subscription") (get_by_organization_id db now org_id)
    plan ← on_error (wrap "plan not found") (lift (plan_by_code plan_code))
    on_error (wrap "failed to update subscription") (
        update_subscription db services
          (renewed_at event.expiration_time (record sub { plan_id = plan.id })))

  -- `if isNotFoundError(err) { return nil }`, and any other error returned.
  unfoldable pub unless_missing :
      Result Subscription → (Subscription → M Table (Unit {0})) → M Table (Unit {0})
  unless_missing (ok sub) f rows = f sub rows
  unless_missing (err e) f rows =
      if is_not_found_error e
      then (ok tt, rows)
      else (err (wrap "failed to get subscription" e), rows)

  abbrev pub with_effective : ℕ → ℕ → (Subscription → M Table (Unit {0})) → M Table (Unit {0})
  with_effective now org_id f rows =
      unless_missing (effective_answer now (db.find (λ s. s.organization_id == org_id) rows)) f rows

  unfoldable pub handle_cancellation : ℕ → Event → M Table (Unit {0})
  handle_cancellation now event = do
    org_id ← lift (resolve_user_and_org event.app_user_id)
    with_effective now org_id λ sub. on_error (wrap "failed to cancel subscription") (
        update_subscription db services (
          renewed_at event.expiration_time (record sub { state = canceled; cancel_at = some now })))

  unfoldable pub handle_uncancellation : ℕ → Event → M Table (Unit {0})
  handle_uncancellation now event = do
    org_id ← lift (resolve_user_and_org event.app_user_id)
    sub ← on_error (wrap "failed to get subscription") (get_by_organization_id db now org_id)
    on_error (wrap "failed to reactivate subscription") (
        update_subscription db services
          (renewed_at event.expiration_time (record sub { state = active; cancel_at = none })))

  unfoldable pub handle_billing_issue : ℕ → Event → M Table (Unit {0})
  handle_billing_issue now event = do
    org_id ← lift (resolve_user_and_org event.app_user_id)
    with_effective now org_id λ sub. on_error (wrap "failed to update subscription") (
        update_subscription db services (record sub {
          state = past_due;
          grace_period_ends_at =
              some (grace_until event.grace_period_time (calendar.add_days now 14));
        }))

  unfoldable pub handle_expiration : ℕ → Event → M Table (Unit {0})
  handle_expiration now event = do
    org_id ← lift (resolve_user_and_org event.app_user_id)
    with_effective now org_id λ sub.
        on_error (wrap "failed to expire subscription") (expire_subscription db services now sub.id)

  unfoldable pub handle_subscription_paused : ℕ → Event → M Table (Unit {0})
  handle_subscription_paused now event = do
    org_id ← lift (resolve_user_and_org event.app_user_id)
    sub ← on_error (wrap "failed to get subscription") (get_by_organization_id db now org_id)
    on_error (wrap "failed to pause subscription") (
        update_subscription db services (
          renewed_at event.auto_resume_time
            (record sub { state = canceled; cancel_at = some now })))

  unfoldable pub handle_subscription_extended : ℕ → Event → M Table (Unit {0})
  handle_subscription_extended now event = do
    org_id ← lift (resolve_user_and_org event.app_user_id)
    sub ← on_error (wrap "failed to get subscription") (get_by_organization_id db now org_id)
    on_error (wrap "failed to extend subscription")
        (update_subscription db services (reactivated now (renewed_at event.expiration_time sub)))

  unfoldable pub handle_event : EventType → ℕ → String → Event → M Table (Unit {0})
  handle_event initial_purchase now uuid event = handle_initial_purchase now uuid event
  handle_event renewal now uuid event = handle_renewal now uuid event
  handle_event product_change now uuid event = handle_product_change now event
  handle_event cancellation now uuid event = handle_cancellation now event
  handle_event uncancellation now uuid event = handle_uncancellation now event
  handle_event billing_issue now uuid event = handle_billing_issue now event
  handle_event expiration now uuid event = handle_expiration now event
  handle_event subscription_paused now uuid event = handle_subscription_paused now event
  handle_event subscription_extended now uuid event = handle_subscription_extended now event
  handle_event other_event now uuid event = pure tt

  unfoldable pub handle_webhook : ℕ → String → Event → M Table (Unit {0})
  handle_webhook now uuid event = handle_event event.type now uuid event
