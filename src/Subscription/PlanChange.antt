-- ===== src/Subscription/PlanChange.antt =====
-- ChangePlan of internal/service/payment_service.go, with the check of the caller and the plans of
-- the configuration. The members of an organization, the configured plans, the text that joins a
-- plan to its billing cycle (fmt.Sprintf) and the call of Stripe's client are arguments; the
-- metadata of that call, the log and the activity log are left out. Seats are natural numbers: the
-- code reads a negative number as it reads 0.
use passwall_server.Base.{
  ℕ, Option, none, some, String, List, [], ◌∷◌, M, Gorm, str_eq, ◌==◌, ltb, ◌&&◌, ◌||◌, not,
  if◌then◌else◌, Result, ok, err, ◌>>=◌, ◌>>◌, pure, require, lift, on_error, logged, message, wrap,
  suc,
}
use passwall_server.Membership.Record.{OrganizationUser, OrganizationRole, eq_owner, eq_admin}
use passwall_server.Plan.Code.{is_multi_user_plan, is_personal_vault_plan}
use passwall_server.Subscription.Record.{Subscription, Table, get_by_organization_id}
use passwall_server.Subscription.Service.{Plan, Services, within, update_subscription}

pub record PlanConfig : Type 0 where
  pub code : String
  pub max_users : Option ℕ
  pub stripe_price_id : String

-- A request to change the plan of an organization.
pub record PlanChange : Type 0 where
  pub organization_id : ℕ
  pub user_id : ℕ
  pub plan : String
  pub billing_cycle : String
  pub seats : ℕ

pub record Payments : Type 0 where
  pub list_by_organization : ℕ → Result (List OrganizationUser)
  pub plans : List PlanConfig
  pub joined : String → String → String
  pub update_subscription_plan : String → String → ℕ → Result (Unit {0})

-- The role of the first membership of the user.
unfoldable pub role_of : ℕ → List OrganizationUser → Option OrganizationRole
role_of user_id [] = none
role_of user_id (m ∷ ms) = if m.user_id == user_id then some m.role else role_of user_id ms

abbrev pub may_pay : Option OrganizationRole → Result (Unit {0})
may_pay none = err (message "forbidden")
may_pay (some role) = if eq_owner role || eq_admin role then ok tt else err (message "forbidden")

abbrev pub authorized : ℕ → Result (List OrganizationUser) → Result (Unit {0})
authorized user_id (err e) = err (wrap "failed to load organization members" e)
authorized user_id (ok members) = may_pay (role_of user_id members)

unfoldable pub find_plan_config : String → List PlanConfig → Result PlanConfig
find_plan_config code [] = err (message "plan not found in config")
find_plan_config code (p ∷ ps) =
    if str_eq p.code code
    then (if str_eq p.stripe_price_id ""
        then err (message "stripe price ID not configured for plan")
        else ok p)
    else find_plan_config code ps

abbrev pub count_members : List OrganizationUser → ℕ
count_members [] = 0
count_members (m ∷ ms) = suc (count_members ms)

-- `members, _ := ...`: a list that cannot be read counts as empty.
abbrev pub member_number : Result (List OrganizationUser) → ℕ
member_number (ok members) = count_members members
member_number (err e) = 0

-- At least one seat, and one for each member.
abbrev pub enough_seats : ℕ → ℕ → ℕ
enough_seats seats members =
    let wanted : ℕ = if ltb seats 1 then 1 else seats in
    if ltb wanted members then members else wanted

abbrev pub stripe_id_of : Option String → String
stripe_id_of none = ""
stripe_id_of (some id) = id

module _ (db : Gorm Subscription) (services : Services) (payments : Payments) where
  open services use {is_personal, plan_by_code}
  open payments use {list_by_organization, plans, joined, update_subscription_plan}

  -- Stripe has changed the plan already: what fails from here on is only logged.
  unfoldable pub sync_plan : Result Plan → ℕ → Subscription → M Table (Unit {0})
  sync_plan (err e) seats sub = pure tt
  sync_plan (ok plan) seats sub = logged (
      update_subscription db services
        (record sub { plan_id = plan.id; seats_purchased = some seats }))

  unfoldable pub change_plan : ℕ → PlanChange → M Table (Unit {0})
  change_plan now c = do
    lift (authorized c.user_id (list_by_organization c.organization_id))
    personal ← on_error (wrap "organization not found") (lift (is_personal c.organization_id))
    require (not (personal && is_multi_user_plan c.plan))
        (message "personal vaults can only be upgraded to Pro")
    require (not (not personal && (is_personal_vault_plan c.plan && not (str_eq c.plan "free"))))
        (message "Pro plan is only available for personal vaults")
    sub ←
        on_error (λ _. message "no active Stripe subscription found")
          (get_by_organization_id db now c.organization_id)
    require (not (str_eq (stripe_id_of sub.stripe_subscription_id) ""))
        (message "no active Stripe subscription found")
    config ← lift (find_plan_config (joined c.plan c.billing_cycle) plans)
    let seats = enough_seats c.seats (member_number (list_by_organization c.organization_id))
    require (within seats config.max_users) (message "requested seats exceed plan maximum")
    on_error (wrap "failed to change plan") (
        lift (
          update_subscription_plan (stripe_id_of sub.stripe_subscription_id) config.stripe_price_id
            seats))
    sync_plan (plan_by_code (joined c.plan c.billing_cycle)) seats sub
