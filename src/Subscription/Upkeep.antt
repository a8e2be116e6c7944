-- ===== src/Subscription/Upkeep.antt =====
-- Every call of SubscriptionService (internal/service/subscription_service.go), also by a change of
-- the plan and the webhooks of RevenueCat, and the rule of one subscription with full access per
-- organization.
use passwall_server.Base.{
  ℕ, Gorm, IsGorm, Result, ok, err, Memᴰ, refl, lift_step, lift_error_step, require_step,
}
use passwall_server.Subscription.Record.{Subscription, Table, key, rekey}
use passwall_server.Subscription.Service.{Services, Plan}
use passwall_server.Subscription.RevenueCat.{Resolvers}
use passwall_server.Subscription.Uniqueness.{IsUnique}
use passwall_server.Subscription.Operations.{
  create-IsUnique, update_seats-IsUnique, update-IsUnique, upgrade-IsUnique, downgrade-IsUnique,
  cancel-IsUnique, resume-IsUnique, renew-IsUnique, pays-IsUnique, fails-IsUnique, expire-IsUnique,
  check_expired-IsUnique,
}
use passwall_server.Subscription.PlanChange.{PlanChange, Payments, sync_plan, change_plan}
use passwall_server.Subscription.Checks.{effective}
use passwall_server.Subscription.StoreChanges.{same_state-IsUnique}
use passwall_server.Subscription.StoreEvents.{handle_webhook-IsUnique}
use passwall_server.Subscription.Calls.{
  Call, creates, updates_seats, updates, upgrades, downgrades, cancels, resumes, renews, pays,
  fails, expires, sweeps, webhook, changes_plan, serve, Careful,
}

module _ (db : Gorm Subscription) (gorm : IsGorm key rekey db) (services : Services)
    (resolvers : Resolvers) (payments : Payments) where
  sync_plan-IsUnique :
      (r : Result Plan) (seats : ℕ) (s : Subscription) (rows : Table)
      → IsUnique rows
      → Memᴰ s rows
      → IsUnique (sync_plan db services payments r seats s rows).1
  unfolding sync_plan
  sync_plan-IsUnique (err e) seats s rows u m = u
  sync_plan-IsUnique (ok plan) seats s rows u m =
      same_state-IsUnique db gorm services resolvers rows s _ u m (refl, refl) refl

  change_plan-IsUnique :
      (now : ℕ) (c : PlanChange) (rows : Table)
      → IsUnique rows
      → IsUnique (change_plan db services payments now c rows).1
  unfolding change_plan
  change_plan-IsUnique now c rows u = lift_step IsUnique _ _ rows u λ _ _.
      lift_error_step IsUnique _ _ _ rows u λ personal _. require_step IsUnique _ _ _ rows u λ _.
        require_step IsUnique _ _ _ rows u λ _. lift_error_step IsUnique _ _ _ rows u λ s e.
          require_step IsUnique _ _ _ rows u λ _. lift_step IsUnique _ _ rows u λ config _.
            require_step IsUnique _ _ _ rows u λ _. lift_error_step IsUnique _ _ _ rows u λ _ _.
              sync_plan-IsUnique _ _ s rows u
                (effective db gorm services now c.organization_id rows s e).0

  -- A call of the service, a change of the plan, or an event of RevenueCat, whatever it answers and
  -- whatever fails, keeps the keys distinct and at most one subscription with full access per
  -- organization. Some need a condition: an event that a payment succeeded or failed, RevenueCat's
  -- renewal included, that each subscription which may be found for it gives full access itself or
  -- that none of its organization does; and Update that the row is in the table under its
  -- organization, and gives no full access unless it did before or none of its organization does.
  pub serve-IsUnique :
      (now : ℕ) (call : Call) (rows : Table)
      → IsUnique rows
      → Careful db call rows
      → IsUnique (serve db services resolvers payments now call rows)
  unfolding serve
  serve-IsUnique now (creates uuid o code stripe_id seats) rows u c =
      create-IsUnique db gorm services now uuid o code stripe_id seats rows u
  serve-IsUnique now (updates_seats stripe_id seats) rows u c =
      update_seats-IsUnique db gorm services stripe_id seats rows u
  serve-IsUnique now (updates s) rows u c = update-IsUnique db gorm services s rows u c
  serve-IsUnique now (webhook uuid event) rows u c =
      handle_webhook-IsUnique db gorm services resolvers now uuid event rows u c
  serve-IsUnique now (changes_plan c) rows u _ = change_plan-IsUnique now c rows u
  serve-IsUnique now (upgrades o code) rows u c =
      upgrade-IsUnique db gorm services now o code rows u
  serve-IsUnique now (downgrades o code) rows u c =
      downgrade-IsUnique db gorm services now o code rows u
  serve-IsUnique now (cancels o) rows u c = cancel-IsUnique db gorm services now o rows u
  serve-IsUnique now (resumes o) rows u c = resume-IsUnique db gorm services now o rows u
  serve-IsUnique now (renews id) rows u c = renew-IsUnique db gorm services now id rows u
  serve-IsUnique now (pays stripe_id) rows u c =
      pays-IsUnique db gorm services now stripe_id rows u c
  serve-IsUnique now (fails stripe_id) rows u c =
      fails-IsUnique db gorm services now stripe_id rows u c
  serve-IsUnique now (expires id) rows u c = expire-IsUnique db gorm services now id rows u
  serve-IsUnique now sweeps rows u c = check_expired-IsUnique db gorm services now rows u
