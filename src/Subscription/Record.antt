-- ===== src/Subscription/Record.antt =====
-- The subscription row (internal/domain/subscription.go), its payment provider
-- (internal/domain/payment_provider.go) and its table
-- (internal/repository/gormrepo/subscription.go). Times and seats are natural numbers. The columns
-- that gorm keeps are left out, and so are the plan that it loads and saves with a row and the
-- `Order` clauses: the rows come in any order.
use text.Mathlib.Text.{starts_with}
use passwall_server.Base.{
  ℕ, Option, none, some, String, Bool, true, false, List, [], ◌∷◌, M, query, write, commit_value,
  Gorm, str_eq, ◌==◌, ltb, ◌&&◌, ◌||◌, not, if◌then◌else◌, Result, ok, err, record_not_found,
}

pub data SubscriptionState : Type 0 where
  draft trialing active past_due canceled expired : SubscriptionState

pub record Subscription : Type 0 where
  pub id : ℕ
  pub uuid : String
  pub organization_id : ℕ
  pub plan_id : ℕ
  pub state : SubscriptionState
  pub started_at : Option ℕ
  pub renew_at : Option ℕ
  pub cancel_at : Option ℕ
  pub ended_at : Option ℕ
  pub grace_period_ends_at : Option ℕ
  pub trial_ends_at : Option ℕ
  pub stripe_subscription_id : Option String
  pub seats_purchased : Option ℕ

abbrev pub key : Subscription → ℕ
key s = s.id

abbrev pub rekey : ℕ → Subscription → Subscription
rekey k s = record s { id = k }

abbrev pub eq_active : SubscriptionState → Bool
eq_active active = true
eq_active _ = false

abbrev pub eq_trialing : SubscriptionState → Bool
eq_trialing trialing = true
eq_trialing _ = false

abbrev pub eq_past_due : SubscriptionState → Bool
eq_past_due past_due = true
eq_past_due _ = false

abbrev pub eq_canceled : SubscriptionState → Bool
eq_canceled canceled = true
eq_canceled _ = false

abbrev pub eq_expired : SubscriptionState → Bool
eq_expired expired = true
eq_expired _ = false

-- active, trialing and past_due, the states with full access.
abbrev pub active_like : SubscriptionState → Bool
active_like s = eq_active s || eq_trialing s || eq_past_due s

unfoldable pub is_active : Subscription → Bool
is_active s = eq_active s.state || eq_trialing s.state || eq_past_due s.state

unfoldable pub can_write : Subscription → Bool
can_write s = not (eq_expired s.state)

-- `t != nil && t.Before(now)` and `t != nil && t.After(now)`.
abbrev pub before : Option ℕ → ℕ → Bool
before none now = false
before (some t) now = ltb t now

abbrev pub later : Option ℕ → ℕ → Bool
later none now = false
later (some t) now = ltb now t

unfoldable pub is_in_grace_period : ℕ → Subscription → Bool
is_in_grace_period now s = eq_past_due s.state && later s.grace_period_ends_at now

unfoldable pub should_expire : ℕ → Subscription → Bool
should_expire now s =
    (eq_past_due s.state && before s.grace_period_ends_at now)
    || (eq_canceled s.state && before s.renew_at now)

pub data PaymentProvider : Type 0 where
  stripe revenue_cat manual : PaymentProvider

unfoldable pub detect_payment_provider : Option String → PaymentProvider
detect_payment_provider none = manual
detect_payment_provider (some id) =
    if str_eq id "" then manual else if starts_with id "rc_" then revenue_cat else stripe

abbrev pub Table : Type 0
Table = List Subscription

abbrev is_null : Option String → Bool
is_null none = true
is_null (some s) = false

abbrev pub has_stripe_id : String → Subscription → Bool
has_stripe_id id s = elim s.stripe_subscription_id [ none ↦ false | some i ↦ str_eq i id ]

-- The two passes over the rows, and the fallback to the first row.
unfoldable pub first_active : List Subscription → Option Subscription
first_active [] = none
first_active (s ∷ subs) = if active_like s.state then some s else first_active subs

unfoldable pub first_in_window : ℕ → List Subscription → Option Subscription
first_in_window now [] = none
first_in_window now (s ∷ subs) =
    if eq_canceled s.state && later s.renew_at now then some s else first_in_window now subs

abbrev pub or_head : Option Subscription → List Subscription → Option Subscription
or_head (some s) subs = some s
or_head none [] = none
or_head none (s ∷ subs) = some s

abbrev pub or_else : Option Subscription → Option Subscription → Option Subscription
or_else (some s) o = some s
or_else none o = o

unfoldable pub select_effective_subscription : List Subscription → ℕ → Option Subscription
unfolding first_active first_in_window
select_effective_subscription subs now =
    or_head (or_else (first_active subs) (first_in_window now subs)) subs

abbrev pub effective_answer : ℕ → Result (List Subscription) → Result Subscription
effective_answer now (err e) = err e
effective_answer now (ok subs) = elim (select_effective_subscription subs now) [
  | none ↦ err record_not_found
  | some s ↦ ok s
]

module _ (db : Gorm Subscription) where
  abbrev pub expire_active_by_organization_id : ℕ → ℕ → M Table (Unit {0})
  expire_active_by_organization_id org_id ended_at = write (
      db.update (λ s. (s.organization_id == org_id) && active_like s.state)
        (λ s. record s { state = expired; ended_at = some ended_at }))

  abbrev pub create : Subscription → M Table Subscription
  create s rows = commit_value (db.create s rows) rows

  abbrev pub get_by_id : ℕ → M Table Subscription
  get_by_id id = query (db.first λ s. s.id == id)

  abbrev pub get_by_organization_id : ℕ → ℕ → M Table Subscription
  get_by_organization_id now org_id =
      query λ rows. effective_answer now (db.find (λ s. s.organization_id == org_id) rows)

  abbrev pub get_by_stripe_subscription_id : String → M Table Subscription
  get_by_stripe_subscription_id id = query (db.first (has_stripe_id id))

  abbrev pub update : Subscription → M Table (Unit {0})
  update s = write (db.save s)

  abbrev pub list_past_due_expired : ℕ → M Table Table
  list_past_due_expired now =
      query (db.find λ s. eq_past_due s.state && before s.grace_period_ends_at now)

  abbrev pub list_canceled_expired : ℕ → M Table Table
  list_canceled_expired now = query (db.find λ s. eq_canceled s.state && before s.renew_at now)

  abbrev pub list_manual_expired : ℕ → M Table Table
  list_manual_expired now = query (
      db.find λ s.
        is_null s.stripe_subscription_id
        && before s.renew_at now
        && (eq_active s.state || eq_trialing s.state))
