-- ===== src/Subscription/Service.antt =====
-- internal/service/subscription_service.go. The organizations, plans and counts that it reads from
-- other services, the calendar of Go's `time` package and the two calls of the Stripe client are
-- arguments. Emails and the log change no state and are left out; so is the store's name in the
-- text of the RevenueCat error.
use passwall_server.Base.{
  ℕ, Option, none, some, String, Bool, true, List, [], ◌∷◌, M, Gorm, str_eq, ltb, leb, ◌&&◌, ◌||◌,
  not, if◌then◌else◌, Result, ok, err, ◌>>=◌, ◌>>◌, pure, fail, require, lift, on_error, or_fail,
  logged, message, wrap,
}
use passwall_server.Plan.Code.{is_multi_user_plan, is_personal_vault_plan}
use passwall_server.Subscription.Record.{
  SubscriptionState, draft, trialing, active, past_due, canceled, expired, Subscription, Table,
  eq_canceled, eq_expired, PaymentProvider, stripe, revenue_cat, manual, detect_payment_provider,
  expire_active_by_organization_id, create, get_by_id, get_by_organization_id,
  get_by_stripe_subscription_id, update, list_past_due_expired, list_canceled_expired,
  list_manual_expired, has_stripe_id,
}

pub data BillingCycle : Type 0 where
  monthly yearly other_cycle : BillingCycle

-- What the service reads of a plan (internal/domain/plan.go).
pub record Plan : Type 0 where
  pub id : ℕ
  pub code : String
  pub billing_cycle : BillingCycle
  pub price_cents : ℕ
  pub trial_days : ℕ
  pub max_users : Option ℕ
  pub max_collections : Option ℕ
  pub is_active : Bool

abbrev pub has_trial : Plan → Bool
has_trial p = ltb 0 p.trial_days

-- `t.AddDate(0, 0, n)`, `t.AddDate(0, n, 0)` and `t.AddDate(n, 0, 0)`.
pub record Calendar : Type 0 where
  pub add_days : ℕ → ℕ → ℕ
  pub add_months : ℕ → ℕ → ℕ
  pub add_years : ℕ → ℕ → ℕ

pub record StripeClient : Type 0 where
  pub cancel_subscription : String → Result (Unit {0})
  pub reactivate_subscription : String → Result (Unit {0})

-- The other services and repositories: whether an organization is personal, the plans by code and
-- by identifier, the plan preloaded with a subscription, the counts, and the Stripe client if there
-- is one.
pub record Services : Type 0 where
  pub is_personal : ℕ → Result Bool
  pub plan_by_code : String → Result Plan
  pub plan_by_id : ℕ → Result Plan
  pub preloaded_plan : Subscription → Option Plan
  pub member_count : ℕ → Result ℕ
  pub collection_count : ℕ → Result ℕ
  pub stripe_client : Option StripeClient
  pub calendar : Calendar

abbrev pub by_cycle : Calendar → ℕ → BillingCycle → ℕ
by_cycle c now monthly = c.add_months now 1
by_cycle c now yearly = c.add_years now 1
by_cycle c now other_cycle = c.add_months now 1

-- Create's own rule, whose `else` is a year.
abbrev pub first_renewal : Calendar → ℕ → BillingCycle → ℕ
first_renewal c now monthly = c.add_months now 1
first_renewal c now yearly = c.add_years now 1
first_renewal c now other_cycle = c.add_years now 1

abbrev pub next_renewal : Calendar → ℕ → Option Plan → ℕ
next_renewal c now none = c.add_months now 1
next_renewal c now (some p) = by_cycle c now p.billing_cycle

-- The row that Create builds.
unfoldable pub new_subscription :
    Calendar → ℕ → String → ℕ → String → Option ℕ → Plan → Subscription
new_subscription c now uuid org_id stripe_id seats plan =
    let trial_end = c.add_days now plan.trial_days in
    record {
      id = 0;
      uuid = uuid;
      organization_id = org_id;
      plan_id = plan.id;
      state = if has_trial plan then trialing else active;
      started_at = some now;
      renew_at =
          some (if has_trial plan then trial_end else first_renewal c now plan.billing_cycle);
      cancel_at = none;
      ended_at = none;
      grace_period_ends_at = none;
      trial_ends_at = if has_trial plan then some trial_end else none;
      stripe_subscription_id = some stripe_id;
      seats_purchased = seats;
    }

-- The transition of HandlePaymentSuccess on the state that it finds.
unfoldable pub paid : ℕ → SubscriptionState → Subscription → Subscription
paid now draft s = record s { state = active; started_at = some now }
paid now trialing s = record s { state = active; started_at = some now }
paid now past_due s = record s { state = active; grace_period_ends_at = none }
paid now expired s = record s { state = active; started_at = some now; ended_at = none }
paid now active s = s
paid now canceled s = s

abbrev pub within : ℕ → Option ℕ → Bool
within n none = true
within n (some limit) = leb n limit

module _ (db : Gorm Subscription) (services : Services) where
  open services use {
    is_personal, plan_by_code, plan_by_id, preloaded_plan, member_count, collection_count,
    stripe_client, calendar,
  }

  -- The invariant between plans and organizations, checked by Create, Upgrade and Downgrade.
  unfoldable pub check_plan_type : ℕ → String → M Table (Unit {0})
  check_plan_type org_id plan_code = do
    personal ← on_error (wrap "organization not found") (lift (is_personal org_id))
    require (not (personal && is_multi_user_plan plan_code))
        (message "personal vaults can only use free or pro plans")
    require
        (not (not personal && (is_personal_vault_plan plan_code && not (str_eq plan_code "free"))))
        (message "pro plan is only available for personal vaults")

  unfoldable pub create_new : ℕ → String → ℕ → String → String → Option ℕ → M Table Subscription
  create_new now uuid org_id plan_code stripe_id seats = do
    check_plan_type org_id plan_code
    plan ← on_error (wrap "failed to get plan") (lift (plan_by_code plan_code))
    require plan.is_active (message "plan is not active")
    on_error (wrap "failed to expire existing active subscriptions")
        (expire_active_by_organization_id db org_id now)
    on_error (wrap "failed to create subscription")
        (create db (new_subscription calendar now uuid org_id stripe_id seats plan))

  -- An existing row with the Stripe identifier is the answer; a failed lookup goes on.
  unfoldable pub create_unless :
      ℕ → String → ℕ → String → String → Option ℕ → Result Subscription → M Table Subscription
  create_unless now uuid org_id plan_code stripe_id seats (ok existing) = pure existing
  create_unless now uuid org_id plan_code stripe_id seats (err e) =
      create_new now uuid org_id plan_code stripe_id seats

  unfoldable pub create_subscription :
      ℕ → String → ℕ → String → String → Option ℕ → M Table Subscription
  unfolding create_unless create_new
  create_subscription now uuid org_id plan_code stripe_id seats rows =
      if str_eq stripe_id ""
      then create_new now uuid org_id plan_code stripe_id seats rows
      else create_unless now uuid org_id plan_code stripe_id seats
          (db.first (has_stripe_id stripe_id) rows) rows

  unfoldable pub update_seats_purchased : String → Option ℕ → M Table (Unit {0})
  update_seats_purchased stripe_id seats = do
    require (not (str_eq stripe_id "")) (message "stripe subscription id required")
    sub ← on_error (wrap "failed to get subscription") (get_by_stripe_subscription_id db stripe_id)
    on_error (wrap "failed to update subscription seats")
        (update db (record sub { seats_purchased = seats }))

  unfoldable pub update_subscription : Subscription → M Table (Unit {0})
  update_subscription sub = update db sub

  unfoldable pub upgrade : ℕ → ℕ → String → M Table (Unit {0})
  upgrade now org_id plan_code = do
    check_plan_type org_id plan_code
    sub ← on_error (wrap "failed to get subscription") (get_by_organization_id db now org_id)
    new_plan ← on_error (wrap "failed to get plan") (lift (plan_by_code plan_code))
    current_plan ← on_error (wrap "failed to get current plan") (lift (plan_by_id sub.plan_id))
    require (not (leb new_plan.price_cents current_plan.price_cents))
        (message "new plan must be higher tier than current plan")
    update db (record sub { plan_id = new_plan.id })

  -- A count is read only where the plan has the limit.
  unfoldable pub check_limit : Option ℕ → Result ℕ → String → M Table (Unit {0})
  check_limit none count text = pure tt
  check_limit (some limit) count text = do
    n ← on_error (wrap "failed to get count") (lift count)
    require (leb n limit) (message text)

  unfoldable pub downgrade : ℕ → ℕ → String → M Table (Unit {0})
  downgrade now org_id plan_code = do
    check_plan_type org_id plan_code
    sub ← on_error (wrap "failed to get subscription") (get_by_organization_id db now org_id)
    new_plan ← on_error (wrap "failed to get plan") (lift (plan_by_code plan_code))
    check_limit new_plan.max_users (member_count org_id)
        "cannot downgrade: current users exceed plan limit"
    check_limit new_plan.max_collections (collection_count org_id)
        "cannot downgrade: current collections exceed plan limit"
    update db (record sub { plan_id = new_plan.id })

  unfoldable pub stripe_call :
      (StripeClient → String → Result (Unit {0})) → String → Option String → M Table (Unit {0})
  stripe_call call text none = fail (message text)
  stripe_call call text (some id) = do
    client ← or_fail stripe_client (message "stripe client not available")
    on_error (wrap text) (lift (call client id))

  -- The provider's part of Cancel and Resume.
  unfoldable pub route :
      (StripeClient → String → Result (Unit {0}))
      → String
      → Option String
      → PaymentProvider
      → M Table (Unit {0})
  route call text id revenue_cat = fail (message "this subscription is managed by a store")
  route call text id stripe = stripe_call call text id
  route call text id manual = pure tt

  unfoldable pub cancel : ℕ → ℕ → M Table (Unit {0})
  cancel now org_id = do
    sub ← on_error (wrap "failed to get subscription") (get_by_organization_id db now org_id)
    require (not (eq_expired sub.state || eq_canceled sub.state))
        (message "subscription is already canceled or expired")
    route (λ c. c.cancel_subscription) "failed to cancel Stripe subscription"
        sub.stripe_subscription_id (detect_payment_provider sub.stripe_subscription_id)
    on_error (wrap "failed to update subscription in database")
        (update db (record sub { cancel_at = some now; state = canceled }))

  unfoldable pub resume : ℕ → ℕ → M Table (Unit {0})
  resume now org_id = do
    sub ← on_error (wrap "failed to get subscription") (get_by_organization_id db now org_id)
    require (eq_canceled sub.state) (message "can only resume canceled subscriptions")
    route (λ c. c.reactivate_subscription) "failed to reactivate Stripe subscription"
        sub.stripe_subscription_id (detect_payment_provider sub.stripe_subscription_id)
    on_error (wrap "failed to update subscription in database")
        (update db (record sub { state = active; cancel_at = none }))

  unfoldable pub renew : ℕ → ℕ → M Table (Unit {0})
  renew now id = do
    sub ← on_error (wrap "failed to get subscription") (get_by_id db id)
    update db (record sub { renew_at = some (next_renewal calendar now (preloaded_plan sub)) })

  unfoldable pub handle_payment_success : ℕ → String → M Table (Unit {0})
  handle_payment_success now stripe_id = do
    sub ← on_error (wrap "failed to get subscription") (get_by_stripe_subscription_id db stripe_id)
    update db (record (paid now sub.state sub) {
      renew_at = some (next_renewal calendar now (preloaded_plan sub));
    })

  unfoldable pub handle_payment_failed : ℕ → String → M Table (Unit {0})
  handle_payment_failed now stripe_id = do
    sub ← on_error (wrap "failed to get subscription") (get_by_stripe_subscription_id db stripe_id)
    update db
        (record sub { state = past_due; grace_period_ends_at = some (calendar.add_days now 14) })

  unfoldable pub expire_subscription : ℕ → ℕ → M Table (Unit {0})
  expire_subscription now id = do
    sub ← on_error (wrap "failed to get subscription") (get_by_id db id)
    update db (record sub { state = expired; ended_at = some now })

  -- A loop that goes on after an error.
  unfoldable pub expire_each : ℕ → List Subscription → M Table (Unit {0})
  expire_each now [] = pure tt
  expire_each now (s ∷ subs) = logged (expire_subscription now s.id) >> expire_each now subs

  unfoldable pub check_expired_subscriptions : ℕ → M Table (Unit {0})
  check_expired_subscriptions now = do
    past_due_subs ←
        on_error (wrap "failed to list past due subscriptions") (list_past_due_expired db now)
    expire_each now past_due_subs
    canceled_subs ←
        on_error (wrap "failed to list canceled subscriptions") (list_canceled_expired db now)
    expire_each now canceled_subs
    manual_subs ←
        on_error (wrap "failed to list manual expired subscriptions") (list_manual_expired db now)
    expire_each now manual_subs
