-- ===== src/Subscription/Calls.antt =====
-- The calls that change subscriptions, as values: every one of SubscriptionService
-- (internal/service/subscription_service.go) that writes, the change of a plan
-- (internal/service/payment_service.go), and the webhooks of RevenueCat, which make several
-- (internal/service/revenuecat_service.go).
use passwall_server.Base.{ℕ, Option, String, true, false, Memᴰ, Gorm, ok, ◌≡◌, ◌⊎◌}
use passwall_server.Subscription.Record.{Subscription, Table, active_like, has_stripe_id}
use passwall_server.Subscription.Service.{
  Services, create_subscription, update_subscription, update_seats_purchased, upgrade, downgrade,
  cancel, resume, renew, handle_payment_success, handle_payment_failed, expire_subscription,
  check_expired_subscriptions,
}
use passwall_server.Subscription.RevenueCat.{EventType, renewal, Event, Resolvers, handle_webhook}
use passwall_server.Subscription.PlanChange.{PlanChange, Payments, change_plan}
use passwall_server.Subscription.Uniqueness.{Vacant}

pub data Call : Type 0 where
  creates : String → ℕ → String → String → Option ℕ → Call
  updates_seats : String → Option ℕ → Call
  updates : Subscription → Call
  upgrades : ℕ → String → Call
  downgrades : ℕ → String → Call
  cancels : ℕ → Call
  resumes : ℕ → Call
  renews : ℕ → Call
  pays : String → Call
  fails : String → Call
  expires : ℕ → Call
  sweeps : Call
  webhook : String → Event → Call
  changes_plan : PlanChange → Call

module _ (db : Gorm Subscription) (services : Services) (resolvers : Resolvers)
    (payments : Payments) where
  -- The table after a call at a time.
  unfoldable pub serve : ℕ → Call → Table → Table
  serve now (creates uuid o code stripe_id seats) rows =
      (create_subscription db services now uuid o code stripe_id seats rows).1
  serve now (updates_seats stripe_id seats) rows =
      (update_seats_purchased db services stripe_id seats rows).1
  serve now (updates s) rows = (update_subscription db services s rows).1
  serve now (webhook uuid event) rows = (handle_webhook db services resolvers now uuid event rows).1
  serve now (changes_plan c) rows = (change_plan db services payments now c rows).1
  serve now (upgrades o code) rows = (upgrade db services now o code rows).1
  serve now (downgrades o code) rows = (downgrade db services now o code rows).1
  serve now (cancels o) rows = (cancel db services now o rows).1
  serve now (resumes o) rows = (resume db services now o rows).1
  serve now (renews id) rows = (renew db services now id rows).1
  serve now (pays stripe_id) rows = (handle_payment_success db services now stripe_id rows).1
  serve now (fails stripe_id) rows = (handle_payment_failed db services now stripe_id rows).1
  serve now (expires id) rows = (expire_subscription db services now id rows).1
  serve now sweeps rows = (check_expired_subscriptions db services now rows).1

-- The subscription that a payment event names gives full access, or none of its organization does.
abbrev pub Current : Gorm Subscription → String → Table → Type 0
Current db stripe_id rows =
    (s : Subscription)
    → db.first (has_stripe_id stripe_id) rows ≡ ok s
    → (active_like s.state ≡ true) ⊎ Vacant s.organization_id rows

-- The row of the table whose key a subscription has, under its organization; what is saved gives no
-- full access, or the row did, or none of the organization does.
abbrev pub Known : Subscription → Table → Type 0
Known s rows =
    (old : Subscription) × Memᴰ old rows
    × (s.id ≡ old.id)
    × (s.organization_id ≡ old.organization_id)
    × ((active_like s.state ≡ false)
        ⊎ ((active_like old.state ≡ true) ⊎ Vacant old.organization_id rows))

-- What an event of RevenueCat needs: a renewal is a payment.
abbrev pub CarefulEvent : Gorm Subscription → EventType → String → Table → Type 0
CarefulEvent db renewal id rows = Current db id rows
CarefulEvent db _ id rows = Unit {0}

-- What a call needs for an organization to keep one subscription with full access: a payment event
-- that its subscription is current, an update that its row is known, any other call nothing.
abbrev pub Careful : Gorm Subscription → Call → Table → Type 0
Careful db (updates s) rows = Known s rows
Careful db (pays stripe_id) rows = Current db stripe_id rows
Careful db (fails stripe_id) rows = Current db stripe_id rows
Careful db (webhook uuid event) rows = CarefulEvent db event.type event.subscription_id rows
Careful db _ rows = Unit {0}
